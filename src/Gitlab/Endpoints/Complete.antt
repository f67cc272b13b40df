-- ===== src/Gitlab/Endpoints/Complete.antt =====
-- What the client's four lists hold (internal/gitlab/client.go).
use Prim.Native.String.{◌++◌ as ◌<>◌}
use text.Mathlib.TextLemmas.{append_assoc}
use gitlab_elt.Text.Integers.{format_int}
use gitlab_elt.Text.Times.{format_rfc3339_in}
use gitlab_elt.Common.{
  refl, ap, sym, subst, ◌∙◌, ◌∷◌, ℕ, String, Option, none, some, List, [], GoMap, lookup, insert,
  lookup-insert, string_eq, ◌==◌, eq_iff, if◌then◌else◌, Option-cases, inl, inr, ◌≡◌, arith,
}
use gitlab_elt.Domain.{GitlabProject, GitlabIssue, GitlabLabelEvent, GitlabNote}
use gitlab_elt.Repository.{Result, ok}
use gitlab_elt.Gitlab.{GitlabClient}
use gitlab_elt.Gitlab.Client.{Outcome, success, failure, Page}
use gitlab_elt.Gitlab.Client.Pages.{concat, Serves, get_paginated-Serves}
use gitlab_elt.Gitlab.Endpoints.{
  Http, Client, page_params, issue_params, note_params, projects_path, issues_path,
  label_events_path, notes_path, result_of, get_page, get, query, build_url, list_pages, client,
}

-- The size of the pages: 100 where the caller has none.
abbrev pub per_page : Option String → String
per_page none = "100"
per_page (some given) = given

-- The value of a key among the parameters of a page: its number, its size, or what the caller gave.
abbrev pub page_value : GoMap String String → String → String → Option String
page_value params page key =
    if "page" == key
    then some page
    else if "per_page" == key
    then some (per_page (lookup "per_page" params))
    else lookup key params

lookup_page :
    (params : GoMap String String) (page : String)
    → lookup "per_page" (insert "page" page params) ≡ lookup "per_page" params
lookup_page params page = lookup-insert "page" "per_page" page params

lookup-page_params :
    (params : GoMap String String) (page key : String)
    → lookup key (page_params params page) ≡ page_value params page key
unfolding page_params
lookup-page_params params page key = elim (Option-cases (lookup "per_page" params)) [
  | inl unset ↦ ground (
    arith,
    lookup_page params page,
    lookup-insert "per_page" key "100" (insert "page" page params),
    lookup-insert "page" key page params,
    eq_iff "per_page" key,
    eq_iff "page" key,
  )
  | inr (given, found) ↦ ground (
    arith,
    lookup_page params page,
    lookup-insert "page" key page params,
    eq_iff "per_page" key,
    eq_iff "page" key,
  )
]

abbrev pub parameter : String × String → String
parameter (k, v) = k <> ("=" <> v)

-- The parameters behind an address, each `k=v`: the first behind a `?` and the others behind a `&`.
abbrev pub others : List (String × String) → String
others [] = ""
others (p ∷ ps) = "&" <> (parameter p <> others ps)

abbrev pub written : List (String × String) → String
written [] = ""
written (p ∷ ps) = "?" <> (parameter p <> others ps)

query-one :
    (sep : String) (p : String × String) (rest : String)
    → sep <> (p.0 <> ("=" <> (p.1 <> rest))) ≡ sep <> (parameter p <> rest)
query-one sep (k, v) rest =
    ap (λ s. sep <> s)
      (sym (append_assoc k ("=" <> v) rest ∙ ap (λ s. k <> s) (append_assoc "=" v rest)))

query-others : (ps : List (String × String)) → query "&" ps ≡ others ps
unfolding query
query-others [] = refl
query-others (p ∷ ps) =
    query-one "&" p (query "&" ps) ∙ ap (λ s. "&" <> (parameter p <> s)) (query-others ps)

query-written : (ps : List (String × String)) → query "?" ps ≡ written ps
unfolding query
query-written [] = refl
query-written (p ∷ ps) =
    query-one "?" p (query "&" ps) ∙ ap (λ s. "?" <> (parameter p <> s)) (query-others ps)

-- One call of the interface, with its arguments.
pub data Listing : Type 0 → Type 1 where
  group_projects : ℕ → Listing GitlabProject
  issues : ℕ → ℕ → Listing GitlabIssue
  label_events : ℕ → ℕ → Listing GitlabLabelEvent
  notes : ℕ → ℕ → Listing GitlabNote

abbrev pub call : {A : Type 0} → GitlabClient → Listing A → ℕ → Result (List A)
call g (group_projects group_id) tick = g.group_projects tick group_id
call g (issues project_id updated_after) tick = g.issues tick project_id updated_after
call g (label_events project_id issue_iid) tick = g.label_events tick project_id issue_iid
call g (notes project_id issue_iid) tick = g.notes tick project_id issue_iid

-- The address of the list in the GitLab API, and the parameters of the method.
abbrev pub path_of : {A : Type 0} → Listing A → String
path_of (group_projects group_id) = "/api/v4/groups/" <> (format_int group_id <> "/projects")
path_of (issues project_id updated_after) =
    "/api/v4/projects/" <> (format_int project_id <> "/issues")
path_of (label_events project_id issue_iid) =
    ("/api/v4/projects/" <> (format_int project_id <> "/issues"))
    <> ("/" <> (format_int issue_iid <> "/resource_label_events"))
path_of (notes project_id issue_iid) =
    ("/api/v4/projects/" <> (format_int project_id <> "/issues"))
    <> ("/" <> (format_int issue_iid <> "/notes"))

abbrev pub params_of : {A : Type 0} → Http → Listing A → GoMap String String
params_of http (group_projects group_id) = []
params_of http (issues project_id updated_after) =
    ("updated_after", format_rfc3339_in (http.zone updated_after) updated_after)
    ∷ ("per_page", "100")
    ∷ ("sort", "asc")
    ∷ ("order_by", "updated_at")
    ∷ []
params_of http (label_events project_id issue_iid) = []
params_of http (notes project_id issue_iid) = ("sort", "asc") ∷ ("order_by", "created_at") ∷ []

abbrev pub decode_of : {A : Type 0} → Http → Listing A → String → Option (List A)
decode_of http (group_projects group_id) = http.decode_projects
decode_of http (issues project_id updated_after) = http.decode_issues
decode_of http (label_events project_id issue_iid) = http.decode_label_events
decode_of http (notes project_id issue_iid) = http.decode_notes

module _ (http : Http) (c : Client) where
  -- What the server says, after the retries, to the request for a page: the turn `n` asks for it by
  -- the base of the client, the path, and the parameters of the page in the order of the walk.
  abbrev pub said : ℕ → String → GoMap String String → ℕ → String → Outcome Page
  said tick path params n page =
      let parameters = written (http.walk (page_params params page)) in
      (get c (http.exchange c.rate_limit tick n (c.base_url <> (path <> parameters)))).outcome

  get_page-said :
      (tick : ℕ) (path : String) (params : GoMap String String)
      → get_page http c tick path params ≡ said tick path params
  unfolding get_page build_url
  get_page-said tick path params = λ i n page.
      let walked = http.walk (page_params params page) in
      let url = c.base_url <> (path <> query-written walked i) in
      (get c (http.exchange c.rate_limit tick n url)).outcome

  -- The elements of all pages of an endpoint, from the first to one that names no next page, each of
  -- them asked for by its number, with a size, and otherwise with the parameters of the caller.
  abbrev pub IsWhole :
      {A : Type 0} → (String → Option (List A)) → ℕ → String → GoMap String String → List A → Type 0
  IsWhole {A} decode tick path params items =
      ((pages : List (List A)) × Serves decode (said tick path params) 0 "1" pages
        × (items ≡ concat pages))
      × ((page key : String) → lookup key (page_params params page) ≡ page_value params page key)

  result_of-ok :
      {A : Type 0} (o : Outcome (List A)) {items : List A}
      → result_of o ≡ ok items
      → o ≡ success items
  result_of-ok (success found) h = cc
  result_of-ok (failure f) h = cc

  list_pages-IsWhole :
      {A : Type 0} (decode : String → Option (List A)) (tick : ℕ) (path : String)
      (params : GoMap String String) (items : List A)
      → result_of (list_pages http c decode tick path params) ≡ ok items
      → IsWhole decode tick path params items
  list_pages-IsWhole {A} decode tick path params items h = (
    subst
        (λ (f : ℕ → String → Outcome Page).
          (pages : List (List A)) × Serves decode f 0 "1" pages × (items ≡ concat pages))
        (get_page-said tick path params)
        (get_paginated-Serves decode (get_page http c tick path params) http.max_pages items
          (result_of-ok _ h)),
    lookup-page_params params,
  )

  -- A list that a method of the client returns, of the projects of a group, the issues of a project
  -- updated after a time, or the label events or notes of an issue, is whole: it holds the elements of
  -- all pages that the server serves at the address of that list, from page 1 to one that names no
  -- next page, each page asked for with its number, with the size 100 where the method has none, and
  -- with the other parameters of the method: the time and the order of the issues, and the order of
  -- the notes.
  pub call-IsWhole :
      {A : Type 0} (l : Listing A) (tick : ℕ) (items : List A)
      → call (client http c) l tick ≡ ok items
      → IsWhole (decode_of http l) tick (path_of l) (params_of http l) items
  unfolding client projects_path issues_path label_events_path notes_path issue_params note_params
  call-IsWhole (group_projects group_id) tick items =
      list_pages-IsWhole http.decode_projects tick (projects_path group_id) [] items
  call-IsWhole (issues project_id updated_after) tick items =
      list_pages-IsWhole http.decode_issues tick (issues_path project_id)
        (issue_params http updated_after) items
  call-IsWhole (label_events project_id issue_iid) tick items =
      list_pages-IsWhole http.decode_label_events tick (label_events_path project_id issue_iid) []
        items
  call-IsWhole (notes project_id issue_iid) tick items =
      list_pages-IsWhole http.decode_notes tick (notes_path project_id issue_iid) note_params items
