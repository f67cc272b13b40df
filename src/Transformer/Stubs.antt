-- ===== src/Transformer/Stubs.antt =====
-- What `ensureIssue` (internal/transformer/service.go) does to an issue that is there.
use gitlab_elt.Common.{
  ℕ, suc, ◌+◌, true, false, none, some, List, [], ◌∷◌, ◌≡◌, ◌∙◌, ap, refl, nat_eq, find?, arith,
}
use gitlab_elt.Repository.{
  Db, Issue, RawIssue, Result, ok, err, db_failure, advance, statement, now_utc,
}
use gitlab_elt.Repository.Bronze.{get_raw_issue_by_project_and_iid}
use gitlab_elt.Repository.Silver.{
  is_issue, update_issues, overwrite_issue, get_issue_by_project_and_iid, upsert_issue,
  UpsertIssueParams,
}
use gitlab_elt.Transformer.Service.{Service, ensure_issue, create_stub, stub_params}

find-overwritten :
    (p : UpsertIssueParams) (i : Issue) (is : List Issue)
    → find? (is_issue p.project_id p.iid) is ≡ some i
    → find?
        (is_issue p.project_id p.iid)
        (update_issues (is_issue p.project_id p.iid) (overwrite_issue p) is)
      ≡ some (overwrite_issue p i)
find-overwritten p i [] h = cc
find-overwritten p i (j ∷ js) h = ground (arith, find-overwritten p i js)

-- What a stub leaves of an issue: its number and the time of its creation.
abbrev pub IsErased : Issue → Issue → Type 0
IsErased i j =
    (j.id ≡ i.id)
    × (j.gitlab_created_at ≡ i.gitlab_created_at)
    × (j.current_canonical_state ≡ none)
    × (j.metadata_labels ≡ "")
    × (j.assignees ≡ "")

module _ (s : Service) where
  upsert_issue-erases :
      (project_id iid now : ℕ) (raw : Result RawIssue) (d : Db) (i : Issue)
      → find? (is_issue project_id iid) d.issues ≡ some i
      → s.env.fails d.tick ≡ false
      → (j : Issue) × IsErased i j
        × (find?
              (is_issue project_id iid)
              (upsert_issue s.env (stub_params s project_id iid now raw) d).1.issues
            ≡ some j)
  unfolding upsert_issue statement stub_params
  upsert_issue-erases project_id iid now (ok raw) d i there works =
      let p = stub_params s project_id iid now (ok raw) in
      rw (works, there)
        (overwrite_issue p i, (refl, refl, refl, refl, refl), find-overwritten p i d.issues there)
  upsert_issue-erases project_id iid now (err e) d i there works =
      let p = stub_params s project_id iid now (err e) in
      rw (works, there)
        (overwrite_issue p i, (refl, refl, refl, refl, refl), find-overwritten p i d.issues there)

  failed_lookup :
      (project_id iid : ℕ) (d : Db)
      → s.env.fails d.tick ≡ true
      → get_issue_by_project_and_iid s.env project_id iid d ≡ (err db_failure, advance d)
  unfolding get_issue_by_project_and_iid statement
  failed_lookup project_id iid d lost = rw lost refl

  raw_issue-advance :
      (project_id iid : ℕ) (d : Db)
      → (get_raw_issue_by_project_and_iid s.env project_id iid d).1 ≡ advance d
  unfolding get_raw_issue_by_project_and_iid statement
  raw_issue-advance project_id iid d = ground arith

  -- If the query that looks the issue up fails, and the later upsert works, then an issue that is in
  -- the table loses its cached state, its metadata and its assignee history.
  pub ensure_issue-erases :
      (project_id iid : ℕ) (d : Db) (i : Issue)
      → find? (is_issue project_id iid) d.issues ≡ some i
      → s.env.fails d.tick ≡ true
      → s.env.fails (d.tick + 3) ≡ false
      → (j : Issue) × IsErased i j
        × (find? (is_issue project_id iid) (ensure_issue s project_id iid d).1.issues ≡ some j)
  unfolding ensure_issue create_stub now_utc
  ensure_issue-erases project_id iid d i there lost works =
      let d₂ = advance (advance d) in
      let raw = get_raw_issue_by_project_and_iid s.env project_id iid d₂ in
      let after : raw.1 ≡ advance d₂ = raw_issue-advance project_id iid d₂ in
      rw (failed_lookup project_id iid d lost) (
        upsert_issue-erases project_id iid (s.env.now (suc d.tick)) raw.0 raw.1 i (rw after there)
          (rw after (ap s.env.fails (omega arith) ∙ works)))
