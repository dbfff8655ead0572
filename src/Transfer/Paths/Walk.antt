-- ===== src/Transfer/Paths/Walk.antt =====
-- A path that passes the check names a place below the directory it is joined to
-- (backend/internal/transfer/files.go).
use Prim.Native.String.{String}
use sync_space.Base.{
  true, false, ◌||◌, List, [], ◌∷◌, ◌≡◌, ◌≢◌, refl, arith, if◌then◌else◌, ◌==◌, nat_eq, string_eq,
  str_eq_iff, split, All,
}
use sync_space.Transfer.Paths.{Platform, validate_relative_path, valid_parts, contains_code}

-- The directory that the operating system is in after it has followed some names, innermost first:
-- "" and "." stay, ".." goes up, and the root's parent is the root.
abbrev follow : List String → String → List String
follow [] name = if name == "" || name == "." || name == ".." then [] else name ∷ []
follow (top ∷ rest) name =
    if name == "" || name == "."
    then top ∷ rest
    else if name == ".."
    then rest
    else name ∷ top ∷ rest

pub walk : List String → List String → List String
walk place [] = place
walk place (name ∷ names) = walk (follow place name) names

-- The names on top of a place, the last one innermost.
pub below : List String → List String → List String
below place [] = place
below place (name ∷ names) = below (name ∷ place) names

-- A name of a file: not empty, no dots that stand for a directory.
abbrev pub IsName : String → Type 0
IsName part = (part ≢ "") × (part ≢ ".") × (part ≢ "..")

walk_of_names :
    (place names : List String) → All IsName names → walk place names ≡ below place names
unfolding walk below
walk_of_names place [] h = refl
walk_of_names [] (name ∷ names) h = ground (
  arith,
  str_eq_iff name "",
  str_eq_iff name ".",
  str_eq_iff name "..",
  walk_of_names (name ∷ []) names h.1,
)
walk_of_names (top ∷ rest) (name ∷ names) h = ground (
  arith,
  str_eq_iff name "",
  str_eq_iff name ".",
  str_eq_iff name "..",
  walk_of_names (name ∷ top ∷ rest) names h.1,
)

valid_parts-IsName :
    (p : Platform) (parts : List String) → valid_parts p parts ≡ true → All IsName parts
unfolding valid_parts
valid_parts-IsName p [] h = tt
valid_parts-IsName p (part ∷ parts) h = ground (
  arith,
  str_eq_iff part "",
  str_eq_iff part ".",
  str_eq_iff part "..",
  valid_parts-IsName p parts,
)

-- Following an accepted path from any directory, whatever the platform, ends at the path's own names
-- below that directory; none of them is empty, "." or "..", and the path has no backslash and no zero.
pub validate_relative_path-walk :
    (p : Platform) (place : List String) (value : String)
    → validate_relative_path p value ≡ true
    → All IsName (split b'/' value)
      × (walk place (split b'/' value) ≡ below place (split b'/' value))
      × (contains_code 92 value ≡ false)
      × (contains_code 0 value ≡ false)
unfolding validate_relative_path
validate_relative_path-walk p place value h =
    let names = valid_parts-IsName p (split b'/' value) (ground (arith, h)) in
    (names, walk_of_names place (split b'/' value) names, ground (arith, h), ground (arith, h))
