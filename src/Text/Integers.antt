-- ===== src/Text/Integers.antt =====
-- Go's `strconv.Atoi`, and `%d` of an `int`: 64 bits wide, as the natural number of its bit pattern.
pub mod RoundTrip
use Prim.Native.Char.{Char, code}
use Prim.Native.String.{◌++◌ as ◌<>◌}
use gitlab_elt.Common.{
  ℕ, ◌+◌, ◌-◌, ◌*◌, ◌%◌, ◌^◌, String, Bool, ◌&&◌, Option, none, some, ltb, leb, ◌==◌, nat_eq,
  if◌then◌else◌,
}
use gitlab_elt.Text.{decimal}

abbrev pub is_digit : Char → Bool
is_digit c = leb b'0' (code c) && leb (code c) b'9'

-- The number that the digits of `s` write behind those of `n`, if all are digits. Go gives up as soon
-- as a number is out of range; here `positive` and `negative` refuse it in the end.
unfoldable pub digits_value : ℕ → String → Option ℕ
digits_value n String.[] = some n
digits_value n (String.◌∷◌ c s) =
    let rest = digits_value (n * 10 + (code c - b'0')) s in if is_digit c then rest else none

unfoldable pub unsigned : String → Option ℕ
unfolding digits_value
unsigned String.[] = none
unsigned (String.◌∷◌ c s) = digits_value 0 (String.◌∷◌ c s)

abbrev pub positive : Option ℕ → Option ℕ
positive none = none
positive (some n) = if ltb n (2 ^ 63) then some n else none

abbrev pub negative : Option ℕ → Option ℕ
negative none = none
negative (some n) = if leb n (2 ^ 63) then some ((2 ^ 64 - n) % 2 ^ 64) else none

unfoldable pub atoi : String → Option ℕ
unfolding unsigned
atoi String.[] = none
atoi (String.◌∷◌ c s) =
    if code c == b'-'
    then negative (unsigned s)
    else if code c == b'+'
    then positive (unsigned s)
    else positive (unsigned (String.◌∷◌ c s))

-- A magnitude of 2 ^ 63 at most has 19 digits at most.
unfoldable pub format_int : ℕ → String
format_int n = if ltb n (2 ^ 63) then decimal 19 n else "-" <> decimal 19 (2 ^ 64 - n)
