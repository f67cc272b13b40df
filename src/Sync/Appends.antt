-- ===== src/Sync/Appends.antt =====
-- What an extraction (internal/sync/extractor.go) leaves as it is.
use gitlab_elt.Common.{
  ℕ, suc, ◌∙◌, false, Option, some, List, [], ◌∷◌, ◌++◌, ◌==◌, ◌≡◌, refl, nat_eq, arith, count_if,
  Extends, Extends-refl, Extends-trans, Extends-snoc,
}
use gitlab_elt.Domain.{GitlabIssue, int_of_int32}
use gitlab_elt.Gitlab.{list_issues, list_label_events, list_notes}
use gitlab_elt.Repository.{
  RawProject, RawEvent, Db, Result, ok, err, Metric, bad_marshal, statement, now_utc, record_metric,
  sync_run,
}
use gitlab_elt.Repository.Bronze.{
  BulkInsertRawEventParams, UpsertRawIssueParams, new_raw_event, bulk_insert_raw_event,
  upsert_raw_issue,
}
use gitlab_elt.Repository.Frame.{
  IsFrame, Keeps, >>=-Keeps, pure-Keeps, raise-Keeps, or_raise-Keeps, attempt-Keeps, if-Keeps,
}
use gitlab_elt.Repository.Projects.{list_raw_projects, sync_project_last_synced}
use gitlab_elt.Repository.Silent.{SameSilver, SameSilver-IsFrame, same_tables-SameSilver}
use gitlab_elt.Sync.{
  Extractor, RawEventData, raw_event_params, events_or_none, since, persist_issue_metadata,
  label_raw_events, note_raw_events, fetch_issue_raw_events, fetch_issues, fetch_project_raw_events,
  after_raw_insert, persist_events, advance_cursor, extract_project, extract_projects,
  extract_listed, extract_all, run_status,
}

abbrev pub processed_count : List RawEvent → ℕ
processed_count = count_if (λ r. r.processed)

-- The raw events have rows added at the end at most, no row is processed that was not before, and
-- the Silver tables of issues are the same.
pub record Appends (d e : Db) : Type 0 where
  pub raw_events : Extends d.raw_events e.raw_events
  pub processed : processed_count e.raw_events ≡ processed_count d.raw_events
  pub silver : SameSilver d e

Appends-IsFrame : IsFrame Appends
Appends-IsFrame = record {
  same = λ d. record {
    raw_events = Extends-refl d.raw_events;
    processed = refl;
    silver = SameSilver-IsFrame.same d;
  };
  then_also = λ d e f g h. record {
    raw_events = Extends-trans d.raw_events e.raw_events f.raw_events g.raw_events h.raw_events;
    processed = h.processed ∙ g.processed;
    silver = SameSilver-IsFrame.then_also d e f g.silver h.silver;
  };
}

-- The raw events and the Silver tables of issues are the same.
abbrev SameEvents : Db → Db → Type 0
SameEvents d e =
    (e.raw_events ≡ d.raw_events)
    × (e.issues ≡ d.issues)
    × (e.issue_events ≡ d.issue_events)
    × (e.issue_comments ≡ d.issue_comments)
    × (e.unknown_labels ≡ d.unknown_labels)

SameEvents-Appends : (d e : Db) → SameEvents d e → Appends d e
SameEvents-Appends d e (raws, issues, events, comments, labels) = record {
  raw_events = rw raws (Extends-refl d.raw_events);
  processed = rw raws refl;
  silver = same_tables-SameSilver d e (issues, events, comments, labels);
}

processed_count-append :
    (r : RawEvent) (rs : List RawEvent)
    → r.processed ≡ false
    → processed_count (rs ++ (r ∷ [])) ≡ processed_count rs
processed_count-append r [] h = rw h refl
processed_count-append r (s ∷ ss) h = ground (arith, processed_count-append r ss h)

module _ (e : Extractor) where
  insert-Appends : (p : BulkInsertRawEventParams) → Keeps Appends (bulk_insert_raw_event e.env p)
  unfolding bulk_insert_raw_event statement
  insert-Appends p = record {
    holds = λ d.
        let row = new_raw_event (suc d.raw_event_seq) p in
        record {
          raw_events = ground (arith, Extends-refl d.raw_events, Extends-snoc d.raw_events row);
          processed = ground (arith, processed_count-append row d.raw_events refl);
          silver = same_tables-SameSilver d _ (ground arith);
        };
  }

  now-Appends : Keeps Appends (now_utc e.env)
  unfolding now_utc
  now-Appends = record { holds = λ d. SameEvents-Appends d _ (ground arith) }

  metric-Appends : (m : Metric) → Keeps Appends (record_metric e.env m)
  unfolding record_metric
  metric-Appends m = record { holds = λ d. SameEvents-Appends d _ (ground arith) }

  raw_issue-Appends : (p : UpsertRawIssueParams) → Keeps Appends (upsert_raw_issue e.env p)
  unfolding upsert_raw_issue statement
  raw_issue-Appends p = record { holds = λ d. SameEvents-Appends d _ (ground arith) }

  cursor-Appends : (at : Option ℕ) (id : ℕ) → Keeps Appends (sync_project_last_synced e.env at id)
  unfolding sync_project_last_synced statement
  cursor-Appends at id = record { holds = λ d. SameEvents-Appends d _ (ground arith) }

  list_issues-Appends : (p t : ℕ) → Keeps Appends (list_issues e.gitlab p t)
  unfolding list_issues
  list_issues-Appends p t = record { holds = λ d. SameEvents-Appends d _ (ground arith) }

  label_events-Appends : (p i : ℕ) → Keeps Appends (list_label_events e.gitlab p i)
  unfolding list_label_events
  label_events-Appends p i = record { holds = λ d. SameEvents-Appends d _ (ground arith) }

  notes-Appends : (p i : ℕ) → Keeps Appends (list_notes e.gitlab p i)
  unfolding list_notes
  notes-Appends p i = record { holds = λ d. SameEvents-Appends d _ (ground arith) }

  metadata-Appends :
      (p : ℕ) (issue : GitlabIssue) → Keeps Appends (persist_issue_metadata e p issue)
  unfolding persist_issue_metadata
  metadata-Appends p issue =
      if-Keeps Appends-IsFrame e.has_queries
        (>>=-Keeps Appends-IsFrame
          (or_raise-Keeps Appends-IsFrame (e.codec.encode_issue issue) bad_marshal)
          (λ payload.
            >>=-Keeps Appends-IsFrame (raw_issue-Appends _) (λ _. pure-Keeps Appends-IsFrame tt)))
        (pure-Keeps Appends-IsFrame tt)

  issue_events-Appends :
      (p : ℕ) (issue : GitlabIssue) → Keeps Appends (fetch_issue_raw_events e p issue)
  unfolding fetch_issue_raw_events
  issue_events-Appends p issue =
      >>=-Keeps Appends-IsFrame (label_events-Appends p issue.iid) (λ les.
        >>=-Keeps Appends-IsFrame
          (or_raise-Keeps Appends-IsFrame (label_raw_events e p issue.iid les) bad_marshal)
          (λ labels. >>=-Keeps Appends-IsFrame (notes-Appends p issue.iid) (λ ns.
            >>=-Keeps Appends-IsFrame
              (or_raise-Keeps Appends-IsFrame (note_raw_events e p issue.iid ns) bad_marshal)
              (λ notes. pure-Keeps Appends-IsFrame (labels ++ notes)))))

  fetch_issues-Appends :
      (p : ℕ) (issues : List GitlabIssue) → Keeps Appends (fetch_issues e p issues)
  unfolding fetch_issues
  fetch_issues-Appends p [] = pure-Keeps Appends-IsFrame []
  fetch_issues-Appends p (issue ∷ issues) =
      >>=-Keeps Appends-IsFrame (attempt-Keeps Appends-IsFrame (metadata-Appends p issue)) (λ _.
        >>=-Keeps Appends-IsFrame (attempt-Keeps Appends-IsFrame (issue_events-Appends p issue))
          (λ evts.
            >>=-Keeps Appends-IsFrame (fetch_issues-Appends p issues)
              (λ rest. pure-Keeps Appends-IsFrame (events_or_none evts ++ rest))))

  fetch_project-Appends : (p t : ℕ) → Keeps Appends (fetch_project_raw_events e p t)
  unfolding fetch_project_raw_events
  fetch_project-Appends p t =
      >>=-Keeps Appends-IsFrame (list_issues-Appends p t) (fetch_issues-Appends p)

  after_insert-Appends :
      (evt : RawEventData) (r : Result Unit) → Keeps Appends (after_raw_insert e evt r)
  after_insert-Appends evt (ok _) = metric-Appends _
  after_insert-Appends evt (err _) = pure-Keeps Appends-IsFrame tt

  persist-Appends : (evts : List RawEventData) → Keeps Appends (persist_events e evts)
  unfolding persist_events
  persist-Appends [] = pure-Keeps Appends-IsFrame tt
  persist-Appends (evt ∷ evts) =
      >>=-Keeps Appends-IsFrame
        (attempt-Keeps Appends-IsFrame (insert-Appends (raw_event_params evt)))
        (λ r. >>=-Keeps Appends-IsFrame (after_insert-Appends evt r) (λ _. persist-Appends evts))

  advance-Appends : (id start : ℕ) → Keeps Appends (advance_cursor e id start)
  unfolding advance_cursor
  advance-Appends id start = >>=-Keeps Appends-IsFrame (cursor-Appends (some start) id) (λ row.
      >>=-Keeps Appends-IsFrame
        (if-Keeps Appends-IsFrame (row.raw_projects_updated == 1)
          (if-Keeps Appends-IsFrame (row.projects_updated == 1) (pure-Keeps Appends-IsFrame tt)
            (raise-Keeps Appends-IsFrame Unit _))
          (raise-Keeps Appends-IsFrame Unit _))
        (λ _. metric-Appends _))

  project-Appends : (p : RawProject) → Keeps Appends (extract_project e p)
  unfolding extract_project
  project-Appends p = >>=-Keeps Appends-IsFrame now-Appends (λ start.
      >>=-Keeps Appends-IsFrame (fetch_project-Appends (int_of_int32 p.id) (since p.last_synced_at))
        (λ evts.
          if-Keeps Appends-IsFrame e.has_queries
            (>>=-Keeps Appends-IsFrame (persist-Appends evts) (λ _. advance-Appends p.id start))
            (pure-Keeps Appends-IsFrame tt)))

  projects-Appends : (ps : List RawProject) (d : Db) → Appends d (extract_projects e ps d).1
  unfolding extract_projects
  projects-Appends [] d = Appends-IsFrame.same d
  projects-Appends (p ∷ ps) d =
      let d₁ = (extract_project e p d).1 in
      Appends-IsFrame.then_also d d₁ (extract_projects e ps d₁).1 ((project-Appends p).holds d)
        (projects-Appends ps d₁)

  listed-Appends : (r : Result (List RawProject) × Db) → Appends r.1 (extract_listed e r).1
  unfolding extract_listed
  listed-Appends (err _, d) = Appends-IsFrame.same d
  listed-Appends (ok ps, d) = projects-Appends ps d

  list-Appends : (d : Db) → Appends d (list_raw_projects e.env d).1
  unfolding list_raw_projects statement
  list-Appends d = SameEvents-Appends d _ (ground arith)

  run-Appends : (d : Db) → Appends d (extract_listed e (list_raw_projects e.env d)).1
  run-Appends d =
      let r = list_raw_projects e.env d in
      Appends-IsFrame.then_also d r.1 (extract_listed e r).1 (list-Appends d) (listed-Appends r)

  -- A run of the extraction, whatever GitLab answers and whichever statements fail, only adds raw
  -- events at the end of their table, none of them processed, and touches no issue, issue event,
  -- comment or unknown label of the Silver tables.
  pub extract_all-Appends : (d : Db) → Appends d (extract_all e d).1
  unfolding extract_all
  extract_all-Appends d =
      let run = extract_listed e (list_raw_projects e.env d) in
      let m = sync_run "extract" (run_status run.0) in
      ground (
        arith,
        Appends-IsFrame.same d,
        Appends-IsFrame.then_also d run.1 (record_metric e.env m run.1).1 (run-Appends d)
            ((metric-Appends m).holds run.1),
      )
