-- ===== src/Text/Parts.antt =====
-- `strings.Split`, `strings.SplitN` into two parts, and `strings.TrimPrefix` of Go, where the
-- separator is one character, given by its code.
pub mod Laws
use Prim.Native.Char.{Char, code}
use gitlab_elt.Common.{ℕ, String, Option, none, some, List, [], ◌∷◌, ◌==◌, nat_eq, if◌then◌else◌}

abbrev pub cons_first : Char → List String → List String
cons_first c [] = String.◌∷◌ c "" ∷ []
cons_first c (p ∷ ps) = String.◌∷◌ c p ∷ ps

-- `strings.Split`
unfoldable pub split : ℕ → String → List String
split sep String.[] = "" ∷ []
split sep (String.◌∷◌ c s) =
    let rest = split sep s in if code c == sep then "" ∷ rest else cons_first c rest

abbrev pub cons_left : Char → Option (String × String) → Option (String × String)
cons_left c none = none
cons_left c (some (l, r)) = some (String.◌∷◌ c l, r)

-- `strings.SplitN(s, sep, 2)`: `none` where the result has one part only.
unfoldable pub split_two : ℕ → String → Option (String × String)
split_two sep String.[] = none
split_two sep (String.◌∷◌ c s) =
    let rest = split_two sep s in if code c == sep then some ("", s) else cons_left c rest

-- `strings.HasPrefix` and `strings.TrimPrefix`: `none` where the prefix is not there.
unfoldable pub strip_prefix : String → String → Option String
strip_prefix String.[] s = some s
strip_prefix (String.◌∷◌ p ps) String.[] = none
strip_prefix (String.◌∷◌ p ps) (String.◌∷◌ c s) =
    let rest = strip_prefix ps s in if code p == code c then rest else none
