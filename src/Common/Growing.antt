-- ===== src/Common/Growing.antt =====
-- Lists that grow at their end.
use mathlib.Core.Path.{◌≡◌, refl, ◌∙◌}
use mathlib.Core.List.{List, [], ◌∷◌, ◌++◌}

-- The second list begins with the first.
abbrev pub Extends : {A : Type 0} → List A → List A → Type 0
Extends [] ys = Unit
Extends (x ∷ xs) [] = ⊥
Extends (x ∷ xs) (y ∷ ys) = (y ≡ x) × Extends xs ys

module _ {A : Type 0} where
  pub Extends-refl : (xs : List A) → Extends xs xs
  Extends-refl [] = tt
  Extends-refl (x ∷ xs) = (refl, Extends-refl xs)

  pub Extends-trans : (xs ys zs : List A) → Extends xs ys → Extends ys zs → Extends xs zs
  Extends-trans [] ys zs h k = tt
  Extends-trans (x ∷ xs) [] zs h k = absurd h
  Extends-trans (x ∷ xs) (y ∷ ys) [] h k = absurd k
  Extends-trans (x ∷ xs) (y ∷ ys) (z ∷ zs) h k = (k.0 ∙ h.0, Extends-trans xs ys zs h.1 k.1)

  pub Extends-snoc : (xs : List A) (y : A) → Extends xs (xs ++ (y ∷ []))
  Extends-snoc [] y = tt
  Extends-snoc (x ∷ xs) y = (refl, Extends-snoc xs y)
