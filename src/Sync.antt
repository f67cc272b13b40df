-- ===== src/Sync.antt =====
-- internal/sync/extractor.go: from the GitLab API to the Bronze tables. The traces and logs are left
-- out.
pub mod Cursor
pub mod Appends
pub mod Payloads
use gitlab_elt.Common.{
  ℕ, suc, ◌^◌, String, Bool, true, false, Option, none, some, List, [], ◌∷◌, ◌++◌, ◌==◌, nat_eq,
  ltb, if◌then◌else◌,
}
use gitlab_elt.Domain.{
  GitlabIssue, GitlabLabelEvent, GitlabNote, int32, int_of_int32, positive_int64,
}
use gitlab_elt.Gitlab.{GitlabClient, list_issues, list_label_events, list_notes}
use gitlab_elt.Json.{Codec}
use gitlab_elt.Repository.{
  RawProject, Env, Db, Err, Result, ok, err, bad_marshal, cursor_rows, projects_failed,
  not_configured, Action, pure, raise, attempt, or_raise, raw_event_ingested, last_successful_sync,
  sync_run, now_utc, record_metric, ◌>>=◌, ◌>>◌,
}
use gitlab_elt.Repository.Bronze.{
  BulkInsertRawEventParams, UpsertRawIssueParams, bulk_insert_raw_event, upsert_raw_issue,
}
use gitlab_elt.Repository.Projects.{
  SyncProjectLastSyncedRow, list_raw_projects, sync_project_last_synced,
}

-- A nil `queries` is `false` in `has_queries`.
pub record Extractor : Type 0 where
  pub env : Env
  pub gitlab : GitlabClient
  pub codec : Codec
  pub has_queries : Bool

pub record RawEventData : Type 0 where
  pub gitlab_event_id : ℕ
  pub project_id : ℕ
  pub issue_iid : ℕ
  pub event_type : String
  pub raw_payload : String

-- The start of 1970, in milliseconds since year 1.
abbrev pub epoch : ℕ
epoch = 62_135_596_800_000

abbrev pub since : Option ℕ → ℕ
since none = epoch
since (some t) = t

abbrev pub raw_event_params : RawEventData → BulkInsertRawEventParams
raw_event_params evt = record {
  gitlab_event_id = if positive_int64 evt.gitlab_event_id then some evt.gitlab_event_id else none;
  project_id = evt.project_id;
  issue_iid = evt.issue_iid;
  event_type = evt.event_type;
  raw_payload = evt.raw_payload;
}

abbrev pub events_or_none : Result (List RawEventData) → List RawEventData
events_or_none (ok evts) = evts
events_or_none (err _) = []

abbrev pub count_failure : Result (Unit {0}) → ℕ → ℕ
count_failure (ok _) n = n
count_failure (err _) n = suc n

abbrev run_status : {A : Type 0} → Result A → String
run_status (ok _) = "success"
run_status (err _) = "error"

abbrev pub raw_event : String → ℕ → ℕ → ℕ → String → RawEventData
raw_event event_type project_id iid id payload = record {
  gitlab_event_id = id;
  project_id = int32 project_id;
  issue_iid = int32 iid;
  event_type = event_type;
  raw_payload = payload;
}

-- One step of the loops that marshal: the first payload that cannot be marshalled ends them.
abbrev pub cons_event :
    (String → RawEventData)
    → Option String
    → Option (List RawEventData)
    → Option (List RawEventData)
cons_event event none rest = none
cons_event event (some payload) none = none
cons_event event (some payload) (some rest) = some (event payload ∷ rest)

module _ (e : Extractor) where
  unfoldable pub persist_issue_metadata : ℕ → GitlabIssue → Action (Unit {0})
  persist_issue_metadata project_id issue =
      if e.has_queries
      then (do
        payload ← or_raise (e.codec.encode_issue issue) bad_marshal
        upsert_raw_issue e.env (record {
          gitlab_issue_id = issue.id;
          project_id = int32 project_id;
          iid = int32 issue.iid;
          title = issue.title;
          description = none;
          state = issue.state;
          raw_payload = payload;
        })
        pure tt)
      else pure tt

  -- The two loops that marshal the events of an issue.
  unfoldable pub label_raw_events : ℕ → ℕ → List GitlabLabelEvent → Option (List RawEventData)
  label_raw_events project_id iid [] = some []
  label_raw_events project_id iid (le ∷ les) =
      cons_event (raw_event "label_event" project_id iid le.id) (e.codec.encode_label_event le)
        (label_raw_events project_id iid les)

  unfoldable pub note_raw_events : ℕ → ℕ → List GitlabNote → Option (List RawEventData)
  note_raw_events project_id iid [] = some []
  note_raw_events project_id iid (n ∷ ns) =
      cons_event (raw_event "note" project_id iid n.id) (e.codec.encode_note n)
        (note_raw_events project_id iid ns)

  unfoldable pub fetch_issue_raw_events : ℕ → GitlabIssue → Action (List RawEventData)
  fetch_issue_raw_events project_id issue = do
    label_events ← list_label_events e.gitlab project_id issue.iid
    labels ← or_raise (label_raw_events project_id issue.iid label_events) bad_marshal
    issue_notes ← list_notes e.gitlab project_id issue.iid
    notes ← or_raise (note_raw_events project_id issue.iid issue_notes) bad_marshal
    pure (labels ++ notes)

  -- The loop over the issues: one whose events cannot be fetched is passed over.
  unfoldable pub fetch_issues : ℕ → List GitlabIssue → Action (List RawEventData)
  fetch_issues project_id [] = pure []
  fetch_issues project_id (issue ∷ issues) = do
    attempt (persist_issue_metadata project_id issue)
    evts ← attempt (fetch_issue_raw_events project_id issue)
    rest ← fetch_issues project_id issues
    pure (events_or_none evts ++ rest)

  unfoldable pub fetch_project_raw_events : ℕ → ℕ → Action (List RawEventData)
  fetch_project_raw_events project_id last_synced = do
    issues ← list_issues e.gitlab project_id last_synced
    fetch_issues project_id issues

  abbrev after_raw_insert : RawEventData → Result (Unit {0}) → Action (Unit {0})
  after_raw_insert evt (ok _) =
      record_metric e.env (raw_event_ingested evt.project_id evt.event_type)
  after_raw_insert evt (err _) = pure tt

  -- The loop over the events: one that cannot be inserted is passed over.
  unfoldable pub persist_events : List RawEventData → Action (Unit {0})
  persist_events [] = pure tt
  persist_events (evt ∷ evts) = do
    r ← attempt (bulk_insert_raw_event e.env (raw_event_params evt))
    after_raw_insert evt r
    persist_events evts

  abbrev pub check_rows : SyncProjectLastSyncedRow → Action (Unit {0})
  check_rows row =
      if row.raw_projects_updated == 1
      then (if row.projects_updated == 1 then pure tt else raise (cursor_rows row.projects_updated))
      else raise (cursor_rows row.raw_projects_updated)

  -- The end of `ExtractProject`: the cursor becomes the time at which the extraction started.
  unfoldable pub advance_cursor : ℕ → ℕ → Action (Unit {0})
  advance_cursor id start = do
    updated ← sync_project_last_synced e.env (some start) id
    check_rows updated
    record_metric e.env (last_successful_sync id "extract" start)

  unfoldable pub extract_project : RawProject → Action (Unit {0})
  extract_project project = do
    start ← now_utc e.env
    evts ← fetch_project_raw_events (int_of_int32 project.id) (since project.last_synced_at)
    if e.has_queries then (persist_events evts >> advance_cursor project.id start) else pure tt

  -- How many projects failed.
  unfoldable pub extract_projects : List RawProject → Db → ℕ × Db
  extract_projects [] d = (0, d)
  extract_projects (p ∷ ps) d =
      let (r, d₁) = extract_project p d in
      let (n, d₂) = extract_projects ps d₁ in (count_failure r n, d₂)

  unfoldable pub extract_listed : Result (List RawProject) × Db → Result (Unit {0}) × Db
  extract_listed (err failure, d) = (err failure, d)
  extract_listed (ok ps, d) =
      let (n, d') = extract_projects ps d in (if n == 0 then ok tt else err (projects_failed n), d')

  -- `ExtractAll`, with the deferred metric of the run.
  unfoldable pub extract_all : Action (Unit {0})
  extract_all d =
      if e.has_queries
      then (let (r, d') = extract_listed (list_raw_projects e.env d) in
          (r, (record_metric e.env (sync_run "extract" (run_status r)) d').1))
      else raise not_configured d
