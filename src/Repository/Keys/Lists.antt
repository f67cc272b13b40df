-- ===== src/Repository/Keys/Lists.antt =====
-- Lists with no two elements of one key, for the unique constraints of the tables.
use gitlab_elt.Common.{Bool, false, ◌||◌, none, List, [], ◌∷◌, ◌++◌, ◌≡◌, refl, any, find?, arith}

module _ {A : Type 0} (same : A → A → Bool) where
  abbrev pub NodupBy : List A → Type 0
  NodupBy [] = Unit
  NodupBy (x ∷ xs) = (any (same x) xs ≡ false) × NodupBy xs

  any-append :
      (x y : A) (xs : List A) → any (same x) (xs ++ (y ∷ [])) ≡ (any (same x) xs || same x y)
  any-append x y [] = ground arith
  any-append x y (z ∷ xs) = ground (arith, any-append x y xs)

  -- A row whose key no row has goes to the end.
  pub append-NodupBy :
      (y : A) (xs : List A)
      → ((x : A) → same x y ≡ same y x)
      → find? (same y) xs ≡ none
      → NodupBy xs
      → NodupBy (xs ++ (y ∷ []))
  append-NodupBy y [] comm h n = (refl, tt)
  append-NodupBy y (x ∷ xs) comm h n =
      ground (arith, append-NodupBy y xs comm, any-append x y xs, comm x)

  -- An update that keeps the keys.
  abbrev pub map_rows : (A → A) → List A → List A
  map_rows f [] = []
  map_rows f (x ∷ xs) = f x ∷ map_rows f xs

  any-map_rows :
      (x : A) (f : A → A) (xs : List A)
      → ((a b : A) → same (f a) (f b) ≡ same a b)
      → any (same (f x)) (map_rows f xs) ≡ any (same x) xs
  any-map_rows x f [] h = refl
  any-map_rows x f (y ∷ xs) h = ground (arith, h x y, any-map_rows x f xs h)

  pub map_rows-NodupBy :
      (f : A → A) (xs : List A)
      → ((a b : A) → same (f a) (f b) ≡ same a b)
      → NodupBy xs
      → NodupBy (map_rows f xs)
  map_rows-NodupBy f [] h n = tt
  map_rows-NodupBy f (x ∷ xs) h n =
      ground (arith, any-map_rows x f xs h, map_rows-NodupBy f xs h n.1)
