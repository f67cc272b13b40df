-- ===== src/Repository/Bronze.antt =====
-- internal/repository/raw_events.sql.go and raw_issues.sql.go.
use gitlab_elt.Common.{
  ℕ, suc, String, Bool, true, false, not, ◌&&◌, Option, none, some, List, [], ◌∷◌, ◌++◌,
  if◌then◌else◌, ◌==◌, nat_eq, find?, select, take, contains,
}
use gitlab_elt.Repository.Tables.{RawEvent, RawIssue}
use gitlab_elt.Repository.Connection.{Env, Action, ok, err, no_rows, statement}

-- The parameters of `BulkInsertRawEvent`.
pub record BulkInsertRawEventParams : Type 0 where
  pub gitlab_event_id : Option ℕ
  pub project_id : ℕ
  pub issue_iid : ℕ
  pub event_type : String
  pub raw_payload : String

pub record UpsertRawIssueParams : Type 0 where
  pub gitlab_issue_id : ℕ
  pub project_id : ℕ
  pub iid : ℕ
  pub title : String
  pub description : Option String
  pub state : String
  pub raw_payload : String

abbrev pub new_raw_event : ℕ → BulkInsertRawEventParams → RawEvent
new_raw_event id p = record {
  id = id;
  gitlab_event_id = p.gitlab_event_id;
  project_id = p.project_id;
  issue_iid = p.issue_iid;
  event_type = p.event_type;
  raw_payload = p.raw_payload;
  processed = false;
}

abbrev pub unprocessed : List RawEvent → List RawEvent
unprocessed = select (λ e. not e.processed)

-- `UPDATE raw_events SET processed = TRUE` for the rows whose id is among `ids`.
abbrev pub set_processed : List ℕ → List RawEvent → List RawEvent
set_processed ids [] = []
set_processed ids (e ∷ es) =
    (if contains e.id ids then record e { processed = true } else e) ∷ set_processed ids es

abbrev is_raw_issue : ℕ → ℕ → RawIssue → Bool
is_raw_issue project_id iid r = r.project_id == project_id && r.iid == iid

-- `ON CONFLICT (project_id, iid) DO UPDATE`, which keeps the GitLab id of the first insert.
update_raw_issue : UpsertRawIssueParams → RawIssue → RawIssue
update_raw_issue p r = record r {
  title = p.title;
  description = p.description;
  state = p.state;
  raw_payload = p.raw_payload;
}

update_raw_issues : UpsertRawIssueParams → List RawIssue → List RawIssue
update_raw_issues p [] = []
update_raw_issues p (r ∷ rs) =
    (if is_raw_issue p.project_id p.iid r then update_raw_issue p r else r) ∷ update_raw_issues p rs

new_raw_issue : ℕ → UpsertRawIssueParams → RawIssue
new_raw_issue id p = record {
  id = id;
  gitlab_issue_id = p.gitlab_issue_id;
  project_id = p.project_id;
  iid = p.iid;
  title = p.title;
  description = p.description;
  state = p.state;
  raw_payload = p.raw_payload;
}

module _ (env : Env) where
  -- The table has no unique column but its own number, so `ON CONFLICT DO NOTHING` never applies.
  unfoldable pub bulk_insert_raw_event : BulkInsertRawEventParams → Action (Unit {0})
  bulk_insert_raw_event p = statement env (λ d. (
    ok tt,
    record d {
      raw_event_seq = suc d.raw_event_seq;
      raw_events = d.raw_events ++ (new_raw_event (suc d.raw_event_seq) p ∷ []);
    },
  ))

  unfoldable pub list_unprocessed_raw_events : ℕ → Action (List RawEvent)
  list_unprocessed_raw_events limit =
      statement env (λ d. (ok (take limit (unprocessed d.raw_events)), d))

  unfoldable pub mark_raw_events_processed_batch : List ℕ → Action (Unit {0})
  mark_raw_events_processed_batch ids =
      statement env (λ d. (ok tt, record d { raw_events = set_processed ids d.raw_events }))

  unfoldable pub get_raw_issue_by_project_and_iid : ℕ → ℕ → Action RawIssue
  get_raw_issue_by_project_and_iid project_id iid = statement env (λ d. (
    elim (find? (is_raw_issue project_id iid) d.raw_issues) [ none ↦ err no_rows | some r ↦ ok r ],
    d,
  ))

  unfoldable pub upsert_raw_issue : UpsertRawIssueParams → Action RawIssue
  unfolding new_raw_issue update_raw_issues update_raw_issue
  upsert_raw_issue p = statement env (λ d.
      let id = suc d.raw_issue_seq in
      elim (find? (is_raw_issue p.project_id p.iid) d.raw_issues) [
        | none ↦ (
          ok (new_raw_issue id p),
          record d { raw_issue_seq = id; raw_issues = d.raw_issues ++ (new_raw_issue id p ∷ []) },
        )
        | some r ↦ (
          ok (update_raw_issue p r),
          record d { raw_issue_seq = id; raw_issues = update_raw_issues p d.raw_issues },
        )
      ])
