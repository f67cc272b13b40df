-- ===== src/Transformer/Frame.antt =====
-- Relations between the database before and after the transformation of one event
-- (internal/transformer/service.go), from the single queries to the whole.
pub mod Consistent
pub mod Growth
pub mod Rows
use gitlab_elt.Common.{
  ℕ, String, Bool, true, false, Option, none, some, List, [], ◌∷◌, ◌==◌, ◌&&◌, ◌||◌, nat_eq,
  string_eq, if◌then◌else◌, Option-cases, inl, inr,
}
use gitlab_elt.Domain.{GitlabLabelEvent, GitlabNote}
use gitlab_elt.Mapper.{LabelType, map_label, metadata_key}
use gitlab_elt.Repository.{
  Db, Metric, RawEvent, Issue, IssueEvent, Result, ok, err, Err, no_rows, bad_json, bad_marshal,
  db_failure, api_failure, cursor_rows, projects_failed, not_configured, Action, pure, attempt,
  on_error, or_raise, transform_result, now_utc, record_metric, ◌>>=◌, ◌>>◌,
}
use gitlab_elt.Repository.Bronze.{get_raw_issue_by_project_and_iid}
use gitlab_elt.Repository.Silver.{
  UpsertIssueParams, InsertIssueEventParams, InsertIssueCommentParams, get_issue_by_id,
  get_issue_by_project_and_iid, upsert_issue, update_issue_assignees, update_issue_canonical_state,
  update_issue_metadata, get_last_issue_event, insert_issue_event, insert_issue_comment,
  upsert_unknown_label,
}
use gitlab_elt.Repository.Frame.{
  IsFrame, Keeps, >>=-Keeps, pure-Keeps, raise-Keeps, or_raise-Keeps, attempt-Keeps, on_error-Keeps,
  if-Keeps,
}
use gitlab_elt.Text.{format_int32}
use gitlab_elt.Transformer.EdgeCases.{determine_canonical_state}
use gitlab_elt.Transformer.Assignees.{AssigneeHistory, AssigneeChange, apply_changes}
use gitlab_elt.Transformer.Assignees.Parse.{parse_assignee_change_from_system_note}
use gitlab_elt.Transformer.Service.{
  Service, record_transform_result, transform_error, create_stub, stub_params, ensure_issue,
  update_metadata, add_label, metadata_of, transform_metadata_label, log_unknown_label, cache_state,
  after_insert, insert_transition, persist_transition, transform_label_state, transform_label,
  transform_label_payload, transform_label_event, history_of, store_history,
  process_assignee_changes, transform_system_note, after_comment, comment_params, transform_comment,
  transform_note_payload, transform_note, transform_event, label_added, label_removed, event_params,
  known_event, is_unknown,
}

-- A relation that each query of the transformer's interface keeps.
pub record KeepsQueries (s : Service) (R : Db → Db → Type 0) : Type 0 where
  pub frame : IsFrame R
  pub now : Keeps R (now_utc s.env)
  pub metric : (m : Metric) → Keeps R (record_metric s.env m)
  pub raw_issue : (p i : ℕ) → Keeps R (get_raw_issue_by_project_and_iid s.env p i)
  pub issue_by_id : (i : ℕ) → Keeps R (get_issue_by_id s.env i)
  pub issue_by_iid : (p i : ℕ) → Keeps R (get_issue_by_project_and_iid s.env p i)
  pub upsert : (p : UpsertIssueParams) → Keeps R (upsert_issue s.env p)
  pub assignees : (t : String) (i : ℕ) → Keeps R (update_issue_assignees s.env t i)
  pub state : (t : Option String) (i : ℕ) → Keeps R (update_issue_canonical_state s.env t i)
  pub metadata : (t : String) (i : ℕ) → Keeps R (update_issue_metadata s.env t i)
  pub last_event : (i : ℕ) → Keeps R (get_last_issue_event s.env i)
  pub event : (p : InsertIssueEventParams) → Keeps R (insert_issue_event s.env p)
  pub comment : (p : InsertIssueCommentParams) → Keeps R (insert_issue_comment s.env p)
  pub unknown : (l : String) → Keeps R (upsert_unknown_label s.env l)

module _ (s : Service) (R : Db → Db → Type 0) (k : KeepsQueries s R) where
  result-Keeps : (raw : RawEvent) (status : String) → Keeps R (record_transform_result s raw status)
  unfolding record_transform_result
  result-Keeps raw status = k.metric _

  error-Keeps : (A : Type 0) (raw : RawEvent) (e : Err) → Keeps R (transform_error s {A = A} raw e)
  unfolding transform_error
  error-Keeps A raw e = >>=-Keeps k.frame (result-Keeps raw "error") (λ _. raise-Keeps k.frame A e)

  create_stub-Keeps : (p i : ℕ) (r : Result Issue) → Keeps R (create_stub s p i r)
  unfolding create_stub
  create_stub-Keeps p i (ok issue) = pure-Keeps k.frame issue
  create_stub-Keeps p i (err e) = >>=-Keeps k.frame k.now (λ now.
      >>=-Keeps k.frame (attempt-Keeps k.frame (k.raw_issue p i))
        (λ raw. k.upsert (stub_params s p i now raw)))

  ensure_issue-Keeps : (p i : ℕ) → Keeps R (ensure_issue s p i)
  unfolding ensure_issue
  ensure_issue-Keeps p i =
      >>=-Keeps k.frame (attempt-Keeps k.frame (k.issue_by_iid p i)) (create_stub-Keeps p i)

  ensured-Keeps :
      (raw : RawEvent)
      → Keeps R (on_error (ensure_issue s raw.project_id raw.issue_iid) (transform_error s raw))
  ensured-Keeps raw =
      on_error-Keeps k.frame (ensure_issue-Keeps raw.project_id raw.issue_iid)
        (error-Keeps Issue raw)

  update_metadata-Keeps : (i : ℕ) (key label : String) → Keeps R (update_metadata s i key label)
  unfolding update_metadata
  update_metadata-Keeps i key label = >>=-Keeps k.frame (k.issue_by_id i) (λ issue.
      >>=-Keeps k.frame (or_raise-Keeps k.frame _ bad_marshal) (λ text. k.metadata text i))

  metadata_label-Keeps :
      (raw : RawEvent) (label : String) → Keeps R (transform_metadata_label s raw label)
  unfolding transform_metadata_label
  metadata_label-Keeps raw label = if-Keeps k.frame _ (pure-Keeps k.frame tt) (
      >>=-Keeps k.frame (ensured-Keeps raw) (λ issue.
        >>=-Keeps k.frame (attempt-Keeps k.frame (update_metadata-Keeps issue.id _ label))
          (λ _. pure-Keeps k.frame tt)))

  log_unknown-Keeps :
      (raw : RawEvent) (le : GitlabLabelEvent) (state : String)
      → Keeps R (log_unknown_label s raw le state)
  unfolding log_unknown_label
  log_unknown-Keeps raw le state =
      if-Keeps k.frame _
        (>>=-Keeps k.frame (result-Keeps raw "unknown_label") (λ _.
          >>=-Keeps k.frame (attempt-Keeps k.frame (k.unknown (label_added le)))
            (λ _. pure-Keeps k.frame true)))
        (pure-Keeps k.frame false)

  cache_state-Keeps : (issue : Issue) (state : String) → Keeps R (cache_state s issue state)
  unfolding cache_state
  cache_state-Keeps issue state = if-Keeps k.frame _ (pure-Keeps k.frame tt) (
      >>=-Keeps k.frame (attempt-Keeps k.frame (k.state (some state) issue.id))
        (λ _. pure-Keeps k.frame tt))

  after_insert-Keeps :
      (raw : RawEvent) (issue : Issue) (state : String) (u : Bool) (r : Result IssueEvent)
      → Keeps R (after_insert s raw issue state u r)
  unfolding after_insert
  after_insert-Keeps raw issue state u (ok e) =
      >>=-Keeps k.frame (if-Keeps k.frame _ (pure-Keeps k.frame tt) (result-Keeps raw "success"))
        (λ _. cache_state-Keeps issue state)
  after_insert-Keeps raw issue state u (err no_rows) = pure-Keeps k.frame tt
  after_insert-Keeps raw issue state u (err e) = error-Keeps Unit raw e

  insert_transition-Keeps :
      (raw : RawEvent) (le : GitlabLabelEvent) (state : String) (u : Bool) (issue : Issue)
      → Keeps R (insert_transition s raw le state u issue)
  unfolding insert_transition
  insert_transition-Keeps raw le state u issue =
      >>=-Keeps k.frame (attempt-Keeps k.frame (k.last_event issue.id)) (λ last.
        >>=-Keeps k.frame
          (attempt-Keeps k.frame (k.event (event_params raw issue le state (known_event last))))
          (after_insert-Keeps raw issue state u))

  transition-Keeps :
      (raw : RawEvent) (le : GitlabLabelEvent) (state : String) (u : Bool)
      → Keeps R (persist_transition s raw le state u)
  unfolding persist_transition
  transition-Keeps raw le state u =
      >>=-Keeps k.frame (ensured-Keeps raw) (insert_transition-Keeps raw le state u)

  label-Keeps :
      (raw : RawEvent) (le : GitlabLabelEvent) (state : String)
      → Keeps R (transform_label_state s raw le state)
  unfolding transform_label_state
  label-Keeps raw le state =
      if-Keeps k.frame (state == "" && le.action == "add")
        (metadata_label-Keeps raw (label_added le))
        (>>=-Keeps k.frame (log_unknown-Keeps raw le state) (λ u.
          if-Keeps k.frame (le.action == "remove") (pure-Keeps k.frame tt)
            (transition-Keeps raw le state u)))

  store_history-Keeps :
      (issue : Issue) (r : AssigneeHistory × Bool) → Keeps R (store_history s issue r)
  unfolding store_history
  store_history-Keeps issue (h, modified) =
      if-Keeps k.frame _
        (>>=-Keeps k.frame (or_raise-Keeps k.frame _ bad_marshal) (λ t. k.assignees t issue.id))
        (pure-Keeps k.frame tt)

  changes-Keeps :
      (raw : RawEvent) (note : GitlabNote) (cs : List AssigneeChange)
      → Keeps R (process_assignee_changes s raw note cs)
  unfolding process_assignee_changes
  changes-Keeps raw note cs =
      >>=-Keeps k.frame (ensure_issue-Keeps raw.project_id raw.issue_iid)
        (λ issue. store_history-Keeps issue _)

  system_note-Keeps :
      (raw : RawEvent) (note : GitlabNote) (cs : List AssigneeChange)
      → Keeps R (transform_system_note s raw note cs)
  unfolding transform_system_note
  system_note-Keeps raw note [] = pure-Keeps k.frame tt
  system_note-Keeps raw note (c ∷ cs) =
      >>=-Keeps k.frame
        (on_error-Keeps k.frame (changes-Keeps raw note (c ∷ cs)) (error-Keeps Unit raw))
        (λ _. result-Keeps raw "success")

  after_comment-Keeps : (raw : RawEvent) (r : Result Unit) → Keeps R (after_comment s raw r)
  unfolding after_comment
  after_comment-Keeps raw (ok _) = result-Keeps raw "success"
  after_comment-Keeps raw (err no_rows) = pure-Keeps k.frame tt
  after_comment-Keeps raw (err e) = error-Keeps Unit raw e

  comment-Keeps : (raw : RawEvent) (note : GitlabNote) → Keeps R (transform_comment s raw note)
  unfolding transform_comment
  comment-Keeps raw note = >>=-Keeps k.frame (ensured-Keeps raw) (λ issue.
      >>=-Keeps k.frame
        (attempt-Keeps k.frame (>>=-Keeps k.frame (k.comment _) (λ _. pure-Keeps k.frame tt)))
        (after_comment-Keeps raw))

  payload-Keeps :
      (raw : RawEvent) (le : Option GitlabLabelEvent) → Keeps R (transform_label_payload s raw le)
  unfolding transform_label_payload transform_label
  payload-Keeps raw none = error-Keeps Unit raw bad_json
  payload-Keeps raw (some le) =
      label-Keeps raw le
        (determine_canonical_state s.lib s.mapper le.action (label_added le) (label_removed le))

  note_payload-Keeps :
      (raw : RawEvent) (note : Option GitlabNote) → Keeps R (transform_note_payload s raw note)
  unfolding transform_note_payload
  note_payload-Keeps raw none = error-Keeps Unit raw bad_json
  note_payload-Keeps raw (some note) =
      if-Keeps k.frame note.system
        (system_note-Keeps raw note (parse_assignee_change_from_system_note s.lib note.body))
        (comment-Keeps raw note)

  pub transform_event-Keeps : (raw : RawEvent) → Keeps R (transform_event s raw)
  unfolding transform_event transform_label_event transform_note
  transform_event-Keeps raw =
      if-Keeps k.frame (raw.event_type == "label_event") (payload-Keeps raw _) (
        if-Keeps k.frame (raw.event_type == "note") (note_payload-Keeps raw _)
          (pure-Keeps k.frame tt))
