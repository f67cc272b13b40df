-- ===== src/Text/Runes.antt =====
-- Texts all of whose characters have a property, and texts that no blank surrounds.
use Prim.Native.Char.{Char}
use Prim.Native.String.{◌++◌ as ◌<>◌}
use text.Mathlib.TextLemmas.{nil-append, cons-append}
use gitlab_elt.Common.{String, false, string_eq, ◌≡◌, refl}
use gitlab_elt.Text.{is_space, trim_left, trim_right, trim_space}

module _ (P : Char → Type 0) where
  abbrev pub AllRunes : String → Type 0
  AllRunes String.[] = Unit
  AllRunes (String.◌∷◌ c s) = P c × AllRunes s

  pub AllRunes-append : (s t : String) → AllRunes s → AllRunes t → AllRunes (s <> t)
  AllRunes-append String.[] t h k = rw nil-append k
  AllRunes-append (String.◌∷◌ c s) t h k = rw cons-append (h.0, AllRunes-append s t h.1 k)

pub AllRunes-weaken :
    (P Q : Char → Type 0) (s : String) → ((c : Char) → P c → Q c) → AllRunes P s → AllRunes Q s
AllRunes-weaken P Q String.[] imp h = tt
AllRunes-weaken P Q (String.◌∷◌ c s) imp h = (imp c h.0, AllRunes-weaken P Q s imp h.1)

abbrev pub IsSolid : Char → Type 0
IsSolid c = is_space c ≡ false

trim_right-solid : (s : String) → AllRunes IsSolid s → trim_right s ≡ s
unfolding trim_right
trim_right-solid String.[] h = refl
trim_right-solid (String.◌∷◌ c s) h = rw (h.0, trim_right-solid s h.1)

trim_left-solid : (s : String) → AllRunes IsSolid s → trim_left s ≡ s
unfolding trim_left
trim_left-solid String.[] h = refl
trim_left-solid (String.◌∷◌ c s) h = rw h.0

pub trim_space-solid : (s : String) → AllRunes IsSolid s → trim_space s ≡ s
unfolding trim_space
trim_space-solid s h = rw (trim_left-solid s h) (trim_right-solid s h)
