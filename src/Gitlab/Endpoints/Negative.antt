-- ===== src/Gitlab/Endpoints/Negative.antt =====
-- A client whose number of retries is negative (internal/gitlab/client.go).
use gitlab_elt.Common.{ℕ, zero, suc, ◌^◌, ◌≤◌, String, Option, List, [], GoMap, ◌≡◌, refl, arith}
use gitlab_elt.Repository.{err, api_failure}
use gitlab_elt.Gitlab.Client.{
  Requests, failure, retries_exceeded, try_from, get_paginated, get_pages,
}
use gitlab_elt.Gitlab.Endpoints.{
  Http, Client, build_url, page_params, get, issue_params, note_params, projects_path, issues_path,
  label_events_path, notes_path, result_of, get_page, client,
}

module _ (http : Http) (c : Client) (negative : 2 ^ 63 ≤ c.max_retries) where
  get_negative :
      (q : Requests) → ((get c q).outcome ≡ failure retries_exceeded) × ((get c q).attempts ≡ 0)
  unfolding get try_from
  get_negative q = ground arith

  list_pages_negative :
      {A : Type 0} (decode : String → Option (List A)) (tick : ℕ) (path : String)
      (params : GoMap String String) (max_pages : ℕ)
      → result_of (get_paginated decode (get_page http c tick path params) max_pages)
        ≡ err api_failure
  unfolding get_paginated get_pages get_page
  list_pages_negative decode tick path params zero = refl
  list_pages_negative decode tick path params (suc fuel) =
      let q = http.exchange c.rate_limit tick 0 (build_url http c path (page_params params "1")) in
      let (refused, none_made) = get_negative q in rw refused refl

  -- With a negative number of retries no request is made, and each of the four lists is an error,
  -- whatever the server would answer.
  pub client_negative :
      (tick group_id project_id updated_after issue_iid : ℕ)
      → ((client http c).group_projects tick group_id ≡ err api_failure)
        × ((client http c).issues tick project_id updated_after ≡ err api_failure)
        × ((client http c).label_events tick project_id issue_iid ≡ err api_failure)
        × ((client http c).notes tick project_id issue_iid ≡ err api_failure)
        × ((q : Requests) → (get c q).attempts ≡ 0)
  unfolding client
  client_negative tick group_id project_id updated_after issue_iid = (
    list_pages_negative http.decode_projects tick (projects_path group_id) [] http.max_pages,
    list_pages_negative http.decode_issues tick (issues_path project_id)
        (issue_params http updated_after) http.max_pages,
    list_pages_negative http.decode_label_events tick (label_events_path project_id issue_iid) []
        http.max_pages,
    list_pages_negative http.decode_notes tick (notes_path project_id issue_iid) note_params
        http.max_pages,
    λ q. (get_negative q).1,
  )
