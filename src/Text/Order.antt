-- ===== src/Text/Order.antt =====
-- The order of Go's texts, and `sort.Strings`. Texts are compared by the numbers of their characters,
-- which is the order of their bytes in UTF-8.
use Prim.Native.Char.{code}
use text.Mathlib.TextEquality.{Char-path}
use gitlab_elt.Common.{
  String, Bool, true, false, List, [], ◌∷◌, ltb, if◌then◌else◌, ◌≡◌, ◌⊎◌, inl, inr, refl, ap, ap₂,
  ◌∙◌, ==→≡, ◌==◌, nat_eq, arith,
}

unfoldable pub leb_text : String → String → Bool
leb_text String.[] t = true
leb_text (String.◌∷◌ c s) String.[] = false
leb_text (String.◌∷◌ c s) (String.◌∷◌ e t) =
    let rest = leb_text s t in
    if ltb (code c) (code e) then true else if ltb (code e) (code c) then false else rest

unfoldable pub insert_sorted : String → List String → List String
insert_sorted x [] = x ∷ []
insert_sorted x (y ∷ ys) =
    let rest = insert_sorted x ys in if leb_text x y then x ∷ y ∷ ys else y ∷ rest

unfoldable pub sort_strings : List String → List String
sort_strings [] = []
sort_strings (x ∷ xs) = insert_sorted x (sort_strings xs)

leb_text_total : (s t : String) → (leb_text s t ≡ true) ⊎ (leb_text t s ≡ true)
unfolding leb_text
leb_text_total String.[] t = inl refl
leb_text_total (String.◌∷◌ c s) String.[] = inr refl
leb_text_total (String.◌∷◌ c s) (String.◌∷◌ e t) = ground (arith, leb_text_total s t)

leb_text_trans : (s t u : String) → leb_text s t ≡ true → leb_text t u ≡ true → leb_text s u ≡ true
unfolding leb_text
leb_text_trans String.[] t u h k = refl
leb_text_trans (String.◌∷◌ c s) String.[] u h k = cc
leb_text_trans (String.◌∷◌ c s) (String.◌∷◌ e t) String.[] h k = cc
leb_text_trans (String.◌∷◌ c s) (String.◌∷◌ e t) (String.◌∷◌ f u) h k =
    ground (arith, leb_text_trans s t u)

leb_text_antisym : (s t : String) → leb_text s t ≡ true → leb_text t s ≡ true → s ≡ t
unfolding leb_text
leb_text_antisym String.[] String.[] h k = refl
leb_text_antisym String.[] (String.◌∷◌ e t) h k = cc
leb_text_antisym (String.◌∷◌ c s) String.[] h k = cc
leb_text_antisym (String.◌∷◌ c s) (String.◌∷◌ e t) h k =
    let same : (code c == code e) ≡ true = ground arith in
    ap₂ String.◌∷◌ (Char-path c e (==→≡ _ _ same))
      (leb_text_antisym s t (ground arith) (ground arith))

insert_sorted_comm :
    (x y : String) (zs : List String)
    → insert_sorted x (insert_sorted y zs) ≡ insert_sorted y (insert_sorted x zs)
unfolding insert_sorted
insert_sorted_comm x y [] = ground (arith, leb_text_total x y, leb_text_antisym x y)
insert_sorted_comm x y (z ∷ zs) = ground (
  arith,
  insert_sorted_comm x y zs,
  leb_text_total x y,
  leb_text_antisym x y,
  leb_text_total x z,
  leb_text_total y z,
  leb_text_trans x y z,
  leb_text_trans y x z,
  leb_text_trans x z y,
  leb_text_trans y z x,
  leb_text_trans z x y,
  leb_text_trans z y x,
)

-- The same texts in another order.
pub data Reordered : List String → List String → Type 0 where
  nothing_left : Reordered [] []
  same_first : (x : String) {xs ys : List String} → Reordered xs ys → Reordered (x ∷ xs) (x ∷ ys)
  swapped : (x y : String) (xs : List String) → Reordered (x ∷ y ∷ xs) (y ∷ x ∷ xs)
  then_also : {xs ys zs : List String} → Reordered xs ys → Reordered ys zs → Reordered xs zs

pub sort_strings-Reordered :
    {xs ys : List String} → Reordered xs ys → sort_strings xs ≡ sort_strings ys
unfolding sort_strings
sort_strings-Reordered nothing_left = refl
sort_strings-Reordered (same_first x r) = ap (insert_sorted x) (sort_strings-Reordered r)
sort_strings-Reordered (swapped x y xs) = insert_sorted_comm x y (sort_strings xs)
sort_strings-Reordered (then_also r q) = sort_strings-Reordered r ∙ sort_strings-Reordered q
