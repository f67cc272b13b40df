-- ===== src/Transformer/Service.antt =====
-- internal/transformer/service.go: how one raw event becomes rows of the Silver tables. The traces
-- and logs are left out; an error that the code only logs is dropped after the call that made it.
pub mod Stub
pub mod Metadata
pub use Stub.{Service}
unfoldable pub use Stub.{
  record_transform_result, transform_error, stub_params, create_stub, ensure_issue,
}
unfoldable pub use Metadata.{labels_or_empty, add_label, metadata_of, update_metadata}
use gitlab_elt.Common.{
  ℕ, ◌+◌, String, Bool, true, false, Option, none, some, List, [], ◌∷◌, ◌++◌, ◌==◌, ◌&&◌, ◌||◌,
  nat_eq, string_eq, if◌then◌else◌, GoMap, lookup, insert, contains,
}
use gitlab_elt.Domain.{GitlabLabelEvent, GitlabNote}
use gitlab_elt.Mapper.{
  LabelType, state_label, metadata_label, unknown_label, map_label, metadata_key,
}
use gitlab_elt.Repository.{
  RawEvent, Issue, IssueEvent, Result, ok, err, Err, no_rows, bad_json, bad_marshal, db_failure,
  bad_marshal, api_failure, cursor_rows, projects_failed, not_configured, Action, pure, raise,
  attempt, or_raise, on_error, ◌>>=◌, ◌>>◌,
}
use gitlab_elt.Repository.Silver.{
  InsertIssueEventParams, get_last_issue_event, insert_issue_event, update_issue_canonical_state,
  update_issue_assignees, InsertIssueCommentParams, insert_issue_comment, upsert_unknown_label,
}
use gitlab_elt.Transformer.EdgeCases.{
  determine_canonical_state, detect_nervous_finger, calculate_cycle_count,
}
use gitlab_elt.Transformer.Assignees.{AssigneeHistory, AssigneeChange, empty, apply_changes}
use gitlab_elt.Transformer.Assignees.Parse.{parse_assignee_change_from_system_note}

abbrev Unit₀ : Type 0
Unit₀ = Unit

-- A label event as the source's local variables have it.
abbrev pub label_added : GitlabLabelEvent → String
label_added le = if le.action == "add" then le.label.name else ""

abbrev pub label_removed : GitlabLabelEvent → String
label_removed le = if le.action == "add" then "" else le.label.name

-- The event that the query returned. A failed query leaves the zero value, whose id is 0.
abbrev pub known_event : Result IssueEvent → Option IssueEvent
known_event (ok e) = if e.id == 0 then none else some e
known_event (err _) = none

-- `pgtype.Text{String: s, Valid: s != ""}`
abbrev pub text_or_null : String → Option String
text_or_null s = if s == "" then none else some s

abbrev pub event_params :
    RawEvent → Issue → GitlabLabelEvent → String → Option IssueEvent → InsertIssueEventParams
event_params raw issue le state last = record {
  gitlab_event_id = some le.id;
  issue_id = issue.id;
  project_id = raw.project_id;
  issue_iid = raw.issue_iid;
  author_name = some le.user.username;
  raw_label_added = text_or_null (label_added le);
  raw_label_removed = text_or_null (label_removed le);
  mapped_canonical_state = state;
  event_timestamp = le.created_at;
  is_noise = detect_nervous_finger last state le.created_at;
  cycle_count = some (calculate_cycle_count last state);
}

abbrev pub is_unknown : LabelType → Bool
is_unknown unknown_label = true
is_unknown state_label = false
is_unknown metadata_label = false

module _ (s : Service) where
  -- The branch of a metadata label: the label is added to the issue's metadata, if it has a key.
  unfoldable pub transform_metadata_label : RawEvent → String → Action Unit₀
  transform_metadata_label raw label =
      let key = metadata_key s.lib s.mapper label in
      if key == "" then pure tt else (do
        issue ← on_error (ensure_issue s raw.project_id raw.issue_iid) (transform_error s raw)
        attempt (update_metadata s issue.id key label)
        pure tt)

  -- The value of `unknownLabelOnly`, and the log of the unknown label.
  unfoldable pub log_unknown_label : RawEvent → GitlabLabelEvent → String → Action Bool
  log_unknown_label raw le state =
      if state == "UNKNOWN"
        && le.action == "add"
        && is_unknown (map_label s.lib s.mapper (label_added le)).1
      then (do
        record_transform_result s raw "unknown_label"
        attempt (upsert_unknown_label s.env (label_added le))
        pure true)
      else pure false

  -- The cached state of the issue, which an unknown label leaves as it is.
  unfoldable pub cache_state : Issue → String → Action Unit₀
  cache_state issue state =
      if state == "UNKNOWN"
      then pure tt
      else (do attempt (update_issue_canonical_state s.env (some state) issue.id); pure tt)

  -- What follows the insert of an issue event: a conflict means that the event is there already.
  unfoldable pub after_insert : RawEvent → Issue → String → Bool → Result IssueEvent → Action Unit₀
  after_insert raw issue state unknown_label_only (ok _) = do
    if unknown_label_only then pure tt else record_transform_result s raw "success"
    cache_state issue state
  after_insert raw issue state unknown_label_only (err no_rows) = pure tt
  after_insert raw issue state unknown_label_only (err e) = transform_error s raw e

  -- The event of a known issue, from the look at its last event on.
  unfoldable pub insert_transition :
      RawEvent → GitlabLabelEvent → String → Bool → Issue → Action Unit₀
  insert_transition raw le state unknown_label_only issue = do
    last ← attempt (get_last_issue_event s.env issue.id)
    inserted ←
        attempt (insert_issue_event s.env (event_params raw issue le state (known_event last)))
    after_insert raw issue state unknown_label_only inserted

  unfoldable pub persist_transition : RawEvent → GitlabLabelEvent → String → Bool → Action Unit₀
  persist_transition raw le state unknown_label_only = do
    issue ← on_error (ensure_issue s raw.project_id raw.issue_iid) (transform_error s raw)
    insert_transition raw le state unknown_label_only issue

  -- `transformLabelEvent` behind the parse of the payload, for the canonical state of the event.
  unfoldable pub transform_label_state : RawEvent → GitlabLabelEvent → String → Action Unit₀
  transform_label_state raw le state =
      if state == "" && le.action == "add"
      then transform_metadata_label raw (label_added le)
      else (do
        unknown_label_only ← log_unknown_label raw le state
        if le.action == "remove"
            then pure tt
            else persist_transition raw le state unknown_label_only)

  unfoldable pub transform_label : RawEvent → GitlabLabelEvent → Action Unit₀
  transform_label raw le =
      transform_label_state raw le
        (determine_canonical_state s.lib s.mapper le.action (label_added le) (label_removed le))

  unfoldable pub transform_label_payload : RawEvent → Option GitlabLabelEvent → Action Unit₀
  transform_label_payload raw none = transform_error s raw bad_json
  transform_label_payload raw (some le) = transform_label raw le

  unfoldable pub transform_label_event : RawEvent → Action Unit₀
  transform_label_event raw =
      transform_label_payload raw (s.codec.decode_label_event raw.raw_payload)

  abbrev history_or_empty : Option AssigneeHistory → AssigneeHistory
  history_or_empty none = empty
  history_or_empty (some h) = h

  -- `parseAssigneeHistory`, and the fresh start of its caller where it fails.
  unfoldable pub history_of : Issue → AssigneeHistory
  history_of issue =
      if issue.assignees == "" || issue.assignees == "null"
      then empty
      else history_or_empty (s.codec.decode_history issue.assignees)

  unfoldable pub store_history : Issue → AssigneeHistory × Bool → Action Unit₀
  store_history issue (h, modified) =
      if modified
      then (do
        assignees ← or_raise (s.codec.encode_history h) bad_marshal
        update_issue_assignees s.env assignees issue.id)
      else pure tt

  unfoldable pub process_assignee_changes :
      RawEvent → GitlabNote → List AssigneeChange → Action Unit₀
  process_assignee_changes raw note changes = do
    issue ← ensure_issue s raw.project_id raw.issue_iid
    store_history issue (apply_changes changes note.created_at (history_of issue, false))

  -- A system note counts only if it tells of assignees.
  unfoldable pub transform_system_note : RawEvent → GitlabNote → List AssigneeChange → Action Unit₀
  transform_system_note raw note [] = pure tt
  transform_system_note raw note (c ∷ cs) = do
    on_error (process_assignee_changes raw note (c ∷ cs)) (transform_error s raw)
    record_transform_result s raw "success"

  unfoldable pub after_comment : RawEvent → Result Unit₀ → Action Unit₀
  after_comment raw (ok _) = record_transform_result s raw "success"
  after_comment raw (err no_rows) = pure tt
  after_comment raw (err e) = transform_error s raw e

  abbrev pub comment_params : Issue → GitlabNote → InsertIssueCommentParams
  comment_params issue note = record {
    gitlab_note_id = note.id;
    issue_id = issue.id;
    author_name = some note.author.username;
    body = some note.body;
    comment_timestamp = note.created_at;
  }

  unfoldable pub transform_comment : RawEvent → GitlabNote → Action Unit₀
  transform_comment raw note = do
    issue ← on_error (ensure_issue s raw.project_id raw.issue_iid) (transform_error s raw)
    inserted ← attempt (insert_issue_comment s.env (comment_params issue note) >> pure tt)
    after_comment raw inserted

  unfoldable pub transform_note_payload : RawEvent → Option GitlabNote → Action Unit₀
  transform_note_payload raw none = transform_error s raw bad_json
  transform_note_payload raw (some note) =
      if note.system
      then transform_system_note raw note (parse_assignee_change_from_system_note s.lib note.body)
      else transform_comment raw note

  unfoldable pub transform_note : RawEvent → Action Unit₀
  transform_note raw = transform_note_payload raw (s.codec.decode_note raw.raw_payload)

  -- An event of another type is logged and counts as done.
  unfoldable pub transform_event : RawEvent → Action Unit₀
  transform_event raw =
      if raw.event_type == "label_event"
      then transform_label_event raw
      else if raw.event_type == "note"
      then transform_note raw
      else pure tt
