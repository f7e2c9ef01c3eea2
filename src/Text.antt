-- ===== src/Text.antt =====
-- The functions of Go's `strings`, `strconv`, `path` and `regexp` packages that the program calls,
-- and `IsEmpty` of common/utils.go. A text is walked by characters; `code` is a character's number.
pub mod Splitting
pub mod Paths
pub mod Patterns
use Prim.Native.String.{[], ◌∷◌}
use mathlib.Core.List.{[] as nil, ◌∷◌ as cons}
use auth_proxy.Prelude.{
  ℕ, zero, suc, ◌+◌, ◌-◌, ◌*◌, ◌/◌, Bool, true, false, ◌&&◌, ◌||◌, ◌==◌, String, code, append, List,
  Option, none, some, leb, ltb, nat_eq, if◌then◌else◌,
}

-- `unicode.IsSpace`
unfoldable pub is_space : ℕ → Bool
is_space c =
    leb 9 c && leb c 13
    || nat_eq c 0x20
    || nat_eq c 0x85
    || nat_eq c 0xa0
    || nat_eq c 0x1680
    || leb 0x2000 c && leb c 0x200a
    || nat_eq c 0x2028
    || nat_eq c 0x2029
    || nat_eq c 0x202f
    || nat_eq c 0x205f
    || nat_eq c 0x3000

-- `len(strings.TrimSpace(str)) == 0`: every character is white space.
unfoldable pub is_empty : String → Bool
unfolding is_space
is_empty [] = true
is_empty (c ∷ s) = is_space (code c) && is_empty s

-- `strings.TrimPrefix(s, p)` if `p` is a prefix of `s`
unfoldable pub strip_prefix : String → String → Option String
strip_prefix [] s = some s
strip_prefix (c ∷ p) [] = none
strip_prefix (c ∷ p) (d ∷ s) = if nat_eq (code c) (code d) then strip_prefix p s else none

unfoldable pub has_prefix : String → String → Bool
unfolding strip_prefix
has_prefix s p = elim (strip_prefix p s) [ none ↦ false | some _ ↦ true ]

unfoldable pub trim_prefix : String → String → String
unfolding strip_prefix
trim_prefix s p = elim (strip_prefix p s) [ none ↦ s | some r ↦ r ]

-- `strings.Replace(s, old, new, 1)` for an `old` that is not empty
unfoldable pub replace_first : String → String → String → String
unfolding strip_prefix
replace_first [] old new = []
replace_first (c ∷ s) old new =
    let rest = replace_first s old new in
    elim (strip_prefix old (c ∷ s)) [ some r ↦ append new r | none ↦ c ∷ rest ]

-- `strings.HasSuffix`
unfoldable pub has_suffix : String → String → Bool
has_suffix [] suffix = suffix == []
has_suffix (c ∷ s) suffix = (c ∷ s) == suffix || has_suffix s suffix

-- `strings.Contains`
unfoldable pub contains : String → String → Bool
unfolding has_prefix
contains [] sub = has_prefix [] sub
contains (c ∷ s) sub = has_prefix (c ∷ s) sub || contains s sub

-- `strings.Join(parts, sep)`
unfoldable pub join : List String → String → String
join nil sep = ""
join (cons x nil) sep = x
join (cons x (cons y xs)) sep = append x (append sep (join (cons y xs) sep))

abbrev pub push : String → List String → List String
push c nil = cons c nil
push c (cons x xs) = cons (append c x) xs

-- `strings.Split(s, sep)` for a separator of one character
unfoldable pub split : String → ℕ → List String
split [] sep = cons "" nil
split (c ∷ s) sep =
    let rest = split s sep in if nat_eq (code c) sep then cons "" rest else push (c ∷ "") rest

digit : ℕ → String
digit n =
    if nat_eq n 0
    then "0"
    else if nat_eq n 1
    then "1"
    else if nat_eq n 2
    then "2"
    else if nat_eq n 3
    then "3"
    else if nat_eq n 4
    then "4"
    else if nat_eq n 5
    then "5"
    else if nat_eq n 6
    then "6"
    else if nat_eq n 7
    then "7"
    else if nat_eq n 8
    then "8"
    else "9"

digits : ℕ → ℕ → String
unfolding digit
digits zero n = ""
digits (suc f) n =
    let more = digits f (n / 10) in
    if ltb n 10 then digit n else append more (digit (n - n / 10 * 10))

-- `strconv.Itoa` of a number that is not negative
unfoldable pub itoa : ℕ → String
unfolding digits
itoa n = digits (suc n) n
