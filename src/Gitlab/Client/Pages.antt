-- ===== src/Gitlab/Client/Pages.antt =====
-- The loop of `getPaginated` (internal/gitlab/client.go) over the pages of an endpoint.
use gitlab_elt.Common.{
  ℕ, zero, suc, ◌≤◌, ◌∙◌, String, Bool, true, false, Option, none, some, List, [], ◌∷◌, ◌++◌, ◌==◌,
  ◌≡◌, ◌≢◌, refl, sym, ap, subst, string_eq, eq_iff, if◌then◌else◌, arith, length,
}
use mathlib.Core.List.{append-nil, append_assoc}
use gitlab_elt.Gitlab.Client.{
  Outcome, success, failure, Page, append_page, after_get, get_pages, get_paginated,
}

module _ {A : Type 0} where
  -- The elements of all pages, in order.
  abbrev pub concat : List (List A) → List A
  concat [] = []
  concat (xs ∷ xss) = xs ++ concat xss

success_injective : {A : Type 0} {a b : A} → success a ≡ success b → a ≡ b
success_injective {A} {a} {b} h = cc

module _ {A : Type 0} (decode : String → Option (List A)) (get : ℕ → String → Outcome Page) where
  -- A page that comes and decodes, with the name of the next one.
  abbrev pub Gives : ℕ → String → List A → String → Type 0
  Gives n page items next_page =
      (body : String) × (get n page ≡ success (record { body = body; next_page = next_page }))
      × (decode body ≡ some items)

  -- The endpoint serves these pages from the page `page` on: each names the next, and the last names
  -- none.
  abbrev pub Serves : ℕ → String → List (List A) → Type 0
  Serves n page [] = ⊥
  Serves n page (items ∷ []) = Gives n page items ""
  Serves n page (items ∷ more ∷ rest) =
      (next_page : String) × (next_page ≢ "")
      × Gives n page items next_page
      × Serves (suc n) next_page (more ∷ rest)

  get_pages-success :
      (fuel n : ℕ) (page : String) (found : List A) (pages : List (List A))
      → Serves n page pages
      → length pages ≤ fuel
      → get_pages decode get fuel n page found ≡ success (found ++ concat pages)
  unfolding get_pages
  get_pages-success zero n page found [] h le = absurd h
  get_pages-success zero n page found (items ∷ rest) h le = absurd (omega (arith, le))
  get_pages-success (suc fuel) n page found [] h le = absurd h
  get_pages-success (suc fuel) n page found (items ∷ []) (body, got, decoded) le =
      rw (got, decoded, append-nil items) refl
  get_pages-success (suc fuel) n page found (items ∷ more ∷ rest)
        (next_page, ne, (body, got, decoded), h) le =
      let not_last : (next_page == "") ≡ false = ground (arith, eq_iff next_page "") in
      rw (got, decoded, not_last)
        (get_pages-success fuel (suc n) next_page (found ++ items) (more ∷ rest) h
            (omega (arith, le))
          ∙ ap success (append_assoc found items (concat (more ∷ rest))))

  -- An endpoint that serves `pages`, each page naming the next, is read to its end: the result is all
  -- elements of all pages in their order, on fuel for as many turns as there are pages.
  pub get_paginated-success :
      (fuel : ℕ) (pages : List (List A))
      → Serves 0 "1" pages
      → length pages ≤ fuel
      → get_paginated decode get fuel ≡ success (concat pages)
  unfolding get_paginated
  get_paginated-success fuel pages h le = get_pages-success fuel 0 "1" [] pages h le

  -- A result of the loop is made of pages that the endpoint served.
  abbrev Served : ℕ → String → List A → List A → Type 0
  Served n page found result =
      (pages : List (List A)) × Serves n page pages × (result ≡ found ++ concat pages)

  more-Served :
      (n : ℕ) (page : String) (items : List A) (next_page : String) (found result : List A)
      → Gives n page items next_page
      → next_page ≢ ""
      → Served (suc n) next_page (found ++ items) result
      → Served n page found result
  more-Served n page items next_page found result gives ne ([], served, e) = absurd served
  more-Served n page items next_page found result gives ne (more ∷ rest, served, e) = (
    items ∷ more ∷ rest,
    (next_page, ne, gives, served),
    e ∙ append_assoc found items (concat (more ∷ rest)),
  )

  last-Served :
      (n : ℕ) (page : String) (items : List A) (next_page : String) (found result : List A)
      → Gives n page items next_page
      → next_page ≡ ""
      → found ++ items ≡ result
      → Served n page found result
  last-Served n page items next_page found result gives last e = (
    items ∷ [],
    subst (Gives n page items) last gives,
    sym e ∙ ap (λ rest. found ++ rest) (sym (append-nil items)),
  )

  chosen-Served :
      (n : ℕ) (page : String) (items : List A) (next_page : String) (found result : List A)
      → Gives n page items next_page
      → (k : Outcome (List A))
      → (k ≡ success result → Served (suc n) next_page (found ++ items) result)
      → (is_last : Bool) → (next_page == "") ≡ is_last
      → (if is_last then success (found ++ items) else k) ≡ success result
      → Served n page found result
  chosen-Served n page items next_page found result gives k later true h final =
      last-Served n page items next_page found result gives ((eq_iff next_page "").0 h)
        (success_injective final)
  chosen-Served n page items next_page found result gives k later false h final =
      more-Served n page items next_page found result gives (λ e. cc (h, (eq_iff next_page "").1 e))
        (later final)

  appended-Served :
      (n : ℕ) (page body next_page : String) (o : Option (List A)) (found result : List A)
      → get n page ≡ success (record { body = body; next_page = next_page })
      → decode body ≡ o
      → (k : String → List A → Outcome (List A))
      → ((items : List A)
          → k next_page (found ++ items) ≡ success result
          → Served (suc n) next_page (found ++ items) result)
      → append_page decode get (record { body = body; next_page = next_page }) o found k
        ≡ success result
      → Served n page found result
  appended-Served n page body next_page none found result got decoded k later final = cc
  appended-Served n page body next_page (some items) found result got decoded k later final =
      chosen-Served n page items next_page found result (body, got, decoded)
        (k next_page (found ++ items)) (later items) (next_page == "") refl final

  after_get-Served :
      (n : ℕ) (page : String) (o : Outcome Page) (found result : List A)
      → get n page ≡ o
      → (k : String → List A → Outcome (List A))
      → ((next_page : String) (items : List A)
          → k next_page (found ++ items) ≡ success result
          → Served (suc n) next_page (found ++ items) result)
      → after_get decode get o found k ≡ success result
      → Served n page found result
  after_get-Served n page (failure f) found result got k later final = cc
  after_get-Served n page (success p) found result got k later final =
      appended-Served n page p.body p.next_page (decode p.body) found result got refl k
        (later p.next_page) final

  get_pages-Served :
      (fuel n : ℕ) (page : String) (found result : List A)
      → get_pages decode get fuel n page found ≡ success result
      → Served n page found result
  unfolding get_pages
  get_pages-Served zero n page found result h = cc
  get_pages-Served (suc fuel) n page found result h =
      after_get-Served n page (get n page) found result refl (get_pages decode get fuel (suc n))
        (λ next_page items. get_pages-Served fuel (suc n) next_page (found ++ items) result) h

  -- A result is never partial: it holds the elements of all pages that the endpoint served, from the
  -- first to one that names no next page, each of them decoded.
  pub get_paginated-Serves :
      (fuel : ℕ) (result : List A)
      → get_paginated decode get fuel ≡ success result
      → (pages : List (List A)) × Serves 0 "1" pages × (result ≡ concat pages)
  unfolding get_paginated
  get_paginated-Serves fuel result h = get_pages-Served fuel 0 "1" [] result h
