-- ===== src/Base/Texts.antt =====
-- What the program uses of Go's `strings`, `hex`, `%03d` and `%d`: trimming, splitting and joining,
-- prefixes and parts, and hexadecimal and decimal digits.
use Prim.Native.Nat.{ℕ, zero, suc, ◌/◌, ◌%◌}
use mathlib.Core.List.{List, [], ◌∷◌}
use Prim.Native.Char.{Char, code}
use Prim.Native.String.{String, ◌++◌ as ◌<>◌}
use mathlib.Core.Bool.{Bool, true, false, ◌&&◌, ◌||◌}
use sync_space.Base.Equality.{◌==◌, nat_eq, string_eq}
use sync_space.Base.Tests.{ltb, leb, if◌then◌else◌}

-- `unicode.IsSpace`
abbrev pub is_space : ℕ → Bool
is_space c =
    (leb 9 c && leb c 13)
    || c == 32
    || c == 0x85
    || c == 0xa0
    || c == 0x1680
    || (leb 0x2000 c && leb c 0x200a)
    || c == 0x2028
    || c == 0x2029
    || c == 0x202f
    || c == 0x205f
    || c == 0x3000

unfoldable pub trim_left : String → String
trim_left String.[] = String.[]
trim_left (String.◌∷◌ c s) =
    let rest = trim_left s in if is_space (code c) then rest else String.◌∷◌ c s

abbrev trim_last : Char → String → String
trim_last c String.[] = if is_space (code c) then String.[] else String.◌∷◌ c String.[]
trim_last c (String.◌∷◌ d s) = String.◌∷◌ c (String.◌∷◌ d s)

unfoldable pub trim_right : String → String
trim_right String.[] = String.[]
trim_right (String.◌∷◌ c s) = trim_last c (trim_right s)

-- `strings.TrimSpace`
unfoldable pub trim_space : String → String
unfolding trim_left trim_right
trim_space s = trim_right (trim_left s)

abbrev pub is_blank : String → Bool
is_blank s = trim_space s == ""

abbrev prepend : Char → List String → List String
prepend c [] = String.◌∷◌ c String.[] ∷ []
prepend c (part ∷ parts) = String.◌∷◌ c part ∷ parts

-- `strings.Split` at a separator of one character.
unfoldable pub split : ℕ → String → List String
split sep String.[] = "" ∷ []
split sep (String.◌∷◌ c s) =
    let rest = split sep s in if code c == sep then "" ∷ rest else prepend c rest

-- `strings.Join`
unfoldable pub join : String → List String → String
join sep [] = ""
join sep (part ∷ []) = part
join sep (part ∷ next ∷ parts) = part <> (sep <> join sep (next ∷ parts))

-- The digit of a number below 16, in upper case.
unfoldable pub digit : ℕ → String
digit n =
    if n == 0
    then "0"
    else if n == 1
    then "1"
    else if n == 2
    then "2"
    else if n == 3
    then "3"
    else if n == 4
    then "4"
    else if n == 5
    then "5"
    else if n == 6
    then "6"
    else if n == 7
    then "7"
    else if n == 8
    then "8"
    else if n == 9
    then "9"
    else if n == 10
    then "A"
    else if n == 11
    then "B"
    else if n == 12
    then "C"
    else if n == 13
    then "D"
    else if n == 14
    then "E"
    else "F"

-- A byte in hexadecimal, in upper case.
unfoldable pub hex_byte : ℕ → String
unfolding digit
hex_byte b = digit (b / 16) <> digit (b % 16)

-- `fmt.Sprintf("%03d", n)` of a number below 1000.
unfoldable pub three_digits : ℕ → String
unfolding digit
three_digits n = digit (n / 100) <> (digit (n / 10 % 10) <> digit (n % 10))

unfoldable pub decimal_digits : ℕ → ℕ → String
unfolding digit
decimal_digits zero n = ""
decimal_digits (suc places) n =
    let rest = decimal_digits places (n / 10) in
    if ltb n 10 then digit n else rest <> digit (n % 10)

-- `fmt.Sprintf("%d", n)` of a number of at most twenty digits.
unfoldable pub decimal : ℕ → String
unfolding decimal_digits
decimal n = decimal_digits 20 n

-- `strings.HasPrefix`
unfoldable pub has_prefix : String → String → Bool
has_prefix String.[] s = true
has_prefix (String.◌∷◌ c p) String.[] = false
has_prefix (String.◌∷◌ c p) (String.◌∷◌ d s) =
    let rest = has_prefix p s in if code c == code d then rest else false

-- `strings.Contains`
unfoldable pub contains : String → String → Bool
unfolding has_prefix
contains part String.[] = part == ""
contains part (String.◌∷◌ c s) =
    let rest = contains part s in has_prefix part (String.◌∷◌ c s) || rest
