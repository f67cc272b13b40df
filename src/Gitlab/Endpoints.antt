-- ===== src/Gitlab/Endpoints.antt =====
-- internal/gitlab/client.go: the client as an implementation of the interface, with the addresses of
-- its requests. The tracing is left out, and the metric of each request.
pub mod Complete
pub mod Negative
use Prim.Native.String.{◌++◌ as ◌<>◌}
use gitlab_elt.Common.{
  ℕ, ◌^◌, String, Option, none, some, List, [], ◌∷◌, GoMap, lookup, insert, string_eq, ltb,
  if◌then◌else◌,
}
use gitlab_elt.Domain.{GitlabProject, GitlabIssue, GitlabLabelEvent, GitlabNote}
use gitlab_elt.Repository.{Result, ok, err, api_failure}
use gitlab_elt.Text.Integers.{format_int}
use gitlab_elt.Text.Times.{Zone, format_rfc3339_in}
use gitlab_elt.Gitlab.{GitlabClient}
use gitlab_elt.Gitlab.Client.{
  Requests, Outcome, success, failure, Page, Call, try_from, do_get, get_paginated,
}

-- What the client does not implement: the limiter, the server and the network, by the rate of the
-- limiter, the time of a call, the turn of its loop over the pages, and the address; the location that
-- a time of the database carries; the order in which Go walks a map; `Unmarshal` of the four
-- kinds of page; and the bound on the pages, which is the fuel of the loop.
pub record Http : Type 0 where
  pub exchange : ℕ → ℕ → ℕ → String → Requests
  pub zone : ℕ → Zone
  pub walk : GoMap String String → List (String × String)
  pub decode_projects : String → Option (List GitlabProject)
  pub decode_issues : String → Option (List GitlabIssue)
  pub decode_label_events : String → Option (List GitlabLabelEvent)
  pub decode_notes : String → Option (List GitlabNote)
  pub max_pages : ℕ

-- `rate_limit` and `max_retries` are of type `int`, which the options take as they are: the limiter has
-- the rate, and a burst of as many.
pub record Client : Type 0 where
  pub base_url : String
  pub token : String
  pub rate_limit : ℕ
  pub max_retries : ℕ

-- `NewClient` with the options of the commands.
unfoldable pub new_client : String → String → ℕ → ℕ → Client
new_client base_url token rate_limit max_retries = record {
  base_url = base_url;
  token = token;
  rate_limit = rate_limit;
  max_retries = max_retries;
}

-- `buildURL`
unfoldable pub query : String → List (String × String) → String
query sep [] = ""
query sep ((k, v) ∷ params) = sep <> (k <> ("=" <> (v <> query "&" params)))

unfoldable pub build_url : Http → Client → String → GoMap String String → String
build_url http c path params = c.base_url <> (path <> query "?" (http.walk params))

abbrev with_default : String → String → Option String → GoMap String String → GoMap String String
with_default k v none m = insert k v m
with_default k v (some given) m = m

-- The parameters of one page: those of the caller, the page, and a size where the caller has none.
unfoldable pub page_params : GoMap String String → String → GoMap String String
page_params params page =
    let with_page = insert "page" page params in
    with_default "per_page" "100" (lookup "per_page" with_page) with_page

-- `doGet`: the loop `attempt <= c.maxRetries` has no turn where the bound is negative.
unfoldable pub get : Client → Requests → Call
get c q = if ltb c.max_retries (2 ^ 63) then do_get c.max_retries q else try_from q 0 0

unfoldable pub issue_params : Http → ℕ → GoMap String String
issue_params http updated_after =
    ("updated_after", format_rfc3339_in (http.zone updated_after) updated_after)
    ∷ ("per_page", "100")
    ∷ ("sort", "asc")
    ∷ ("order_by", "updated_at")
    ∷ []

unfoldable pub note_params : GoMap String String
note_params = ("sort", "asc") ∷ ("order_by", "created_at") ∷ []

unfoldable pub projects_path : ℕ → String
projects_path group_id = "/api/v4/groups/" <> (format_int group_id <> "/projects")

unfoldable pub issues_path : ℕ → String
issues_path project_id = "/api/v4/projects/" <> (format_int project_id <> "/issues")

unfoldable pub label_events_path : ℕ → ℕ → String
label_events_path project_id issue_iid =
    issues_path project_id <> ("/" <> (format_int issue_iid <> "/resource_label_events"))

unfoldable pub notes_path : ℕ → ℕ → String
notes_path project_id issue_iid =
    issues_path project_id <> ("/" <> (format_int issue_iid <> "/notes"))

abbrev pub result_of : {A : Type 0} → Outcome (List A) → Result (List A)
result_of (success items) = ok items
result_of (failure f) = err api_failure

module _ (http : Http) (c : Client) where
  -- What one turn of `getPaginated` asks for.
  unfoldable pub get_page : ℕ → String → GoMap String String → ℕ → String → Outcome Page
  get_page tick path params n page =
      (get c (
        http.exchange c.rate_limit tick n
          (build_url http c path (page_params params page)))).outcome

  abbrev pub list_pages :
      {A : Type 0}
      → (String → Option (List A))
      → ℕ
      → String
      → GoMap String String
      → Outcome (List A)
  list_pages decode tick path params =
      get_paginated decode (get_page tick path params) http.max_pages

  -- `ListGroupProjects`, `ListIssues`, `ListLabelEvents` and `ListNotes`, as the interface wants them.
  unfoldable pub client : GitlabClient
  client = record {
    group_projects = λ tick group_id.
        result_of (list_pages http.decode_projects tick (projects_path group_id) []);
    issues = λ tick project_id updated_after. result_of (
        list_pages http.decode_issues tick (issues_path project_id)
          (issue_params http updated_after));
    label_events = λ tick project_id issue_iid.
        result_of
          (list_pages http.decode_label_events tick (label_events_path project_id issue_iid) []);
    notes = λ tick project_id issue_iid.
        result_of (list_pages http.decode_notes tick (notes_path project_id issue_iid) note_params);
  }
