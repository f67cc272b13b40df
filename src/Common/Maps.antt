-- ===== src/Common/Maps.antt =====
-- A Go map as an association list in which the first entry of a key counts.
use mathlib.Core.Path.{◌≡◌, refl}
use mathlib.Core.List.{List, [], ◌∷◌}
use mathlib.Core.Option.{Option, none, some}
use native.Mathlib.Omega.{arith}
use gitlab_elt.Common.Tests.{if◌then◌else◌, Eq, ◌==◌}

abbrev pub GoMap {ℓ κ} : Type ℓ → Type κ → Type (ℓ ⊔ κ)
GoMap K V = List (K × V)

module _ {ℓ κ} {K : Type ℓ} {V : Type κ} ⦃e : Eq K⦄ where
  -- `v, ok := m[k]`
  unfoldable pub lookup : K → GoMap K V → Option V
  lookup key [] = none
  lookup key ((old, w) ∷ rest) = if old == key then some w else lookup key rest

  -- `m[k] = v`
  unfoldable pub insert : K → V → GoMap K V → GoMap K V
  insert key v [] = (key, v) ∷ []
  insert key v ((old, w) ∷ rest) =
      if old == key then (key, v) ∷ rest else (old, w) ∷ insert key v rest

  pub lookup-nil : (k : K) → lookup k [] ≡ none
  unfolding lookup
  lookup-nil k = refl

  pub lookup-insert :
      (new key : K) (v : V) (m : GoMap K V)
      → lookup key (insert new v m) ≡ (if new == key then some v else lookup key m)
  unfolding lookup insert
  lookup-insert new key v [] = refl
  lookup-insert new key v ((old, w) ∷ rest) =
      ground (
        arith,
        e.eqb_iff old new,
        e.eqb_iff old key,
        e.eqb_iff new key,
        lookup-insert new key v rest,
      )
