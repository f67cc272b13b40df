-- ===== src/Tests/Requesting.antt =====
-- The GitLab client on sample answers.
use gitlab_elt.Common.{
  ◌≡◌, ℕ, String, false, Option, some, List, [], ◌∷◌, refl, arith, ◌==◌, nat_eq, string_eq,
  if◌then◌else◌,
}
use gitlab_elt.Gitlab.Client.{
  Attempt, no_response, response, Requests, Outcome, success, Page, try_from, do_get, get_paginated,
  get_pages,
}
use gitlab_elt.Gitlab.Client.Pages.{concat, Serves, get_paginated-success, get_paginated-Serves}

-- A busy server: the first attempt gets no answer, the second 503, and the third the page.
abbrev answers : ℕ → Attempt
answers n =
    if n == 0 then no_response else if n == 1 then response 503 "" "" else response 200 "[]" ""

abbrev busy : Requests
busy = record { cancelled = λ n. false; attempt = answers }

abbrev empty_page : Page
empty_page = record { body = "[]"; next_page = "" }

busy_page : (do_get 3 busy).outcome ≡ success empty_page
unfolding do_get try_from
busy_page = refl

-- Two pages: the first names the second.
abbrev get_page : ℕ → String → Outcome Page
get_page n page =
    if page == "1"
    then success (record { body = "ab"; next_page = "2" })
    else success (record { body = "c"; next_page = "" })

abbrev decode_page : String → Option (List String)
decode_page body = if body == "ab" then some ("a" ∷ "b" ∷ []) else some ("c" ∷ [])

abbrev pages : List (List String)
pages = ("a" ∷ "b" ∷ []) ∷ ("c" ∷ []) ∷ []

pages-Serves : Serves decode_page get_page 0 "1" pages
pages-Serves = ("2", (λ e. cc e), ("ab", refl, refl), ("c", refl, refl))

get_paginated-success_example :
    get_paginated decode_page get_page 5 ≡ success ("a" ∷ "b" ∷ "c" ∷ [])
get_paginated-success_example =
    get_paginated-success decode_page get_page 5 pages pages-Serves (omega arith)

all_pages : get_paginated decode_page get_page 5 ≡ success ("a" ∷ "b" ∷ "c" ∷ [])
unfolding get_paginated get_pages
all_pages = refl

get_paginated-Serves_example :
    (served : List (List String)) × Serves decode_page get_page 0 "1" served
    × ("a" ∷ "b" ∷ "c" ∷ [] ≡ concat served)
get_paginated-Serves_example =
    get_paginated-Serves decode_page get_page 5 ("a" ∷ "b" ∷ "c" ∷ []) all_pages
