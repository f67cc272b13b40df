-- ===== src/Text.antt =====
-- The functions of Go's `strings`, `strconv` and `fmt` that the worker uses, over texts as sequences
-- of code points.
pub mod Integers
pub mod Order
pub mod Parts
pub mod Runes
pub mod Times
use Prim.Native.Char.{Char, code}
use Prim.Native.String.{◌++◌ as ◌<>◌}
use gitlab_elt.Common.{
  ℕ, suc, ◌/◌, ◌%◌, ◌-◌, ◌^◌, String, Bool, ◌&&◌, ◌||◌, ltb, leb, ◌==◌, nat_eq, string_eq,
  if◌then◌else◌,
}

-- What is left to the libraries: `unicode.ToLower` of one code point, whose table is not in the
-- repository, and the chain of `golang.org/x/text` that drops the combining marks.
pub record TextLib : Type 0 where
  pub lower_rune : Char → Char
  pub strip_marks : String → String

-- `unicode.IsSpace`
unfoldable pub is_space : Char → Bool
is_space c =
    let n = code c in
    (leb 9 n && leb n 13)
    || n == 32
    || n == 0x85
    || n == 0xa0
    || n == 0x1680
    || (leb 0x2000 n && leb n 0x200a)
    || n == 0x2028
    || n == 0x2029
    || n == 0x202f
    || n == 0x205f
    || n == 0x3000

-- `strings.TrimLeft` and `strings.TrimRight` of white space.
unfoldable pub trim_left : String → String
unfolding is_space
trim_left String.[] = ""
trim_left (String.◌∷◌ c s) = if is_space c then trim_left s else String.◌∷◌ c s

unfoldable pub trim_right : String → String
unfolding is_space
trim_right String.[] = ""
trim_right (String.◌∷◌ c s) =
    let rest = trim_right s in if is_space c && rest == "" then "" else String.◌∷◌ c rest

unfoldable pub trim_space : String → String
unfolding trim_left trim_right
trim_space s = trim_right (trim_left s)

-- A map of each code point, as `strings.ToLower` is.
unfoldable pub map_runes : (Char → Char) → String → String
map_runes f String.[] = ""
map_runes f (String.◌∷◌ c s) = String.◌∷◌ (f c) (map_runes f s)

abbrev pub digit : ℕ → String
digit d =
    if d == 0
    then "0"
    else if d == 1
    then "1"
    else if d == 2
    then "2"
    else if d == 3
    then "3"
    else if d == 4
    then "4"
    else if d == 5
    then "5"
    else if d == 6
    then "6"
    else if d == 7
    then "7"
    else if d == 8
    then "8"
    else "9"

-- The decimal digits of a number below 10 ^ fuel.
unfoldable pub decimal : ℕ → ℕ → String
decimal ℕ.zero n = ""
decimal (suc fuel) n =
    let rest = decimal fuel (n / 10) in if ltb n 10 then digit n else rest <> digit (n % 10)

-- `%d` of an `int32`, and `strconv.Itoa(int(n))`: a bit pattern below 2 ^ 32 has ten digits at most.
unfoldable pub format_int32 : ℕ → String
unfolding decimal
format_int32 n = if ltb n (2 ^ 31) then decimal 10 n else "-" <> decimal 10 (2 ^ 32 - n)
