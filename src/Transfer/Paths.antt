-- ===== src/Transfer/Paths.antt =====
-- The checks of a relative path (backend/internal/transfer/files.go). Go's `filepath` and `strings`
-- differ by platform and by the version of Unicode; what the checks use of them is `Platform`.
pub mod Walk
use Prim.Native.Char.{Char, code}
use Prim.Native.String
use Prim.Native.String.{String, len}
use sync_space.Base.{
  has_prefix, ℕ, Bool, true, false, not, ◌&&◌, ◌||◌, Option, none, some, List, [], ◌∷◌, leb,
  if◌then◌else◌, ◌==◌, nat_eq, string_eq, split, ◌<>◌,
}

pub record Platform : Type 0 where
  pub clean : String → String
  pub is_abs : String → Bool
  pub volume_name : String → String
  pub to_upper : String → String
  pub to_lower : String → String
  pub abs : String → Option String
  pub join : String → String → String
  pub rel : String → String → Option String
  pub separator : String
  pub base : String → String
  pub dir : String → String
  pub ext : String → String

-- `strings.ContainsRune`
unfoldable pub contains_code : ℕ → String → Bool
contains_code k String.[] = false
contains_code k (String.◌∷◌ c s) = if code c == k then true else contains_code k s

abbrev pub starts_with_code : ℕ → String → Bool
starts_with_code k String.[] = false
starts_with_code k (String.◌∷◌ c s) = code c == k

unfoldable pub ends_with_code : ℕ → String → Bool
ends_with_code k String.[] = false
ends_with_code k (String.◌∷◌ c String.[]) = code c == k
ends_with_code k (String.◌∷◌ c (String.◌∷◌ d s)) = ends_with_code k (String.◌∷◌ d s)

-- A name up to its last dot, or all of it: `strings.TrimSuffix(name, filepath.Ext(name))`.
unfoldable pub stem : String → String
unfolding contains_code
stem String.[] = String.[]
stem (String.◌∷◌ c s) =
    let rest = stem s in
    if code c == b'.' && not (contains_code b'.' s) then String.[] else String.◌∷◌ c rest

abbrev pub is_one_of : String → List String → Bool
is_one_of s [] = false
is_one_of s (t ∷ ts) = s == t || is_one_of s ts

abbrev pub reserved_names : List String
reserved_names =
    "CON" ∷ "PRN" ∷ "AUX" ∷ "NUL" ∷ "COM1" ∷ "COM2" ∷ "COM3" ∷ "COM4" ∷ "COM5" ∷ "COM6" ∷ "COM7"
    ∷ "COM8" ∷ "COM9" ∷ "LPT1" ∷ "LPT2" ∷ "LPT3" ∷ "LPT4" ∷ "LPT5" ∷ "LPT6" ∷ "LPT7" ∷ "LPT8"
    ∷ "LPT9" ∷ []

module _ (p : Platform) where
  unfoldable pub is_windows_reserved_name : String → Bool
  unfolding stem ends_with_code
  is_windows_reserved_name name =
      is_one_of (p.to_upper (stem name)) reserved_names
      || ends_with_code b'.' name
      || ends_with_code b' ' name

  -- The loop over the parts.
  unfoldable pub valid_parts : List String → Bool
  valid_parts [] = true
  valid_parts (part ∷ parts) =
      let rest = valid_parts parts in
      if part == "" || part == "." || part == ".." || is_windows_reserved_name part
      then false
      else rest

  -- `validateRelativePath`, where no error is true; 92 is the backslash.
  unfoldable pub validate_relative_path : String → Bool
  unfolding contains_code has_prefix valid_parts
  validate_relative_path value =
      if value == ""
        || contains_code 0 value
        || contains_code 92 value
        || starts_with_code b'/' value
      then false
      else let clean = p.clean value in
        if clean == "."
          || clean == ".."
          || has_prefix "../" clean
          || not (clean == value)
          || p.is_abs value
        then false
        else if not (p.volume_name value == "")
        then false
        else valid_parts (split b'/' value)

  -- `secureJoin`; none for any error.
  unfoldable pub secure_join : String → String → Option String
  secure_join root relative =
      if not (validate_relative_path relative) then none else elim (p.abs root) [
        | none ↦ none
        | some root_abs ↦ elim (p.abs (p.join root_abs relative)) [
          | none ↦ none
          | some target ↦ elim (p.rel root_abs target) [
            | none ↦ none
            | some rel ↦
                if rel == ".." || has_prefix (".." <> p.separator) rel then none else some target
          ]
        ]
      ]
