-- ===== src/Transformer/Labels/Redelivered.antt =====
-- Label events that come a second time (internal/transformer/service.go).
use gitlab_elt.Common.{
  ℕ, String, Bool, true, some, ◌==◌, ◌≡◌, ◌∙◌, refl, ap, nat_eq, string_eq, if◌then◌else◌, any,
  found_of_any, arith,
}
use gitlab_elt.Domain.{GitlabLabelEvent}
use gitlab_elt.Repository.{
  Db, RawEvent, Issue, IssueEvent, ok, err, no_rows, Result, continue, handle, attempt, pure, ◌>>=◌,
  statement, now_utc, record_metric,
}
use gitlab_elt.Repository.Bronze.{get_raw_issue_by_project_and_iid}
use gitlab_elt.Repository.Silver.{
  is_event_key, get_issue_by_project_and_iid, upsert_issue, insert_issue_event,
  get_last_issue_event, update_issue_canonical_state, upsert_unknown_label, get_issue_by_id,
  update_issue_metadata, InsertIssueEventParams,
}
use gitlab_elt.Mapper.{metadata_key}
use gitlab_elt.Transformer.EdgeCases.{determine_canonical_state}
use gitlab_elt.Transformer.Labels.{transform_event-label}
use gitlab_elt.Transformer.Service.{
  Service, ensure_issue, create_stub, transform_error, record_transform_result, persist_transition,
  event_params, after_insert, cache_state, update_metadata, transform_metadata_label,
  transform_label_state, transform_label, transform_event, label_added, label_removed, known_event,
  insert_transition, log_unknown_label,
}

module _ (s : Service) where
  create_stub-issue_events :
      (project_id iid : ℕ) (r : Result Issue) (d : Db)
      → (create_stub s project_id iid r d).1.issue_events ≡ d.issue_events
  unfolding create_stub get_raw_issue_by_project_and_iid upsert_issue statement now_utc
  create_stub-issue_events project_id iid (ok i) d = refl
  create_stub-issue_events project_id iid (err _) d = ground arith

  ensure_issue-issue_events :
      (project_id iid : ℕ) (d : Db)
      → (ensure_issue s project_id iid d).1.issue_events ≡ d.issue_events
  unfolding ensure_issue get_issue_by_project_and_iid statement
  ensure_issue-issue_events project_id iid d = ground (
    arith,
    create_stub-issue_events project_id iid (get_issue_by_project_and_iid s.env project_id iid d).0
        (get_issue_by_project_and_iid s.env project_id iid d).1,
  )

  -- The row of the event is there.
  abbrev pub is_recorded : RawEvent → GitlabLabelEvent → Db → Bool
  is_recorded raw le d = any (is_event_key (some le.id) raw.project_id) d.issue_events

  after_insert-issue_events :
      (raw : RawEvent) (issue : Issue) (state : String) (u : Bool) (r : Result IssueEvent) (d : Db)
      → (after_insert s raw issue state u r d).1.issue_events ≡ d.issue_events
  unfolding after_insert cache_state record_transform_result transform_error record_metric
      update_issue_canonical_state statement
  after_insert-issue_events raw issue state u (ok e) d = ground arith
  after_insert-issue_events raw issue state u (err no_rows) d = refl
  after_insert-issue_events raw issue state u (err e) d = ground arith

  last_event-issue_events :
      (id : ℕ) (d : Db) → (get_last_issue_event s.env id d).1.issue_events ≡ d.issue_events
  unfolding get_last_issue_event statement
  last_event-issue_events id d = ground arith

  insert_again :
      (p : InsertIssueEventParams) (d : Db)
      → any (is_event_key p.gitlab_event_id p.project_id) d.issue_events ≡ true
      → (insert_issue_event s.env p d).1.issue_events ≡ d.issue_events
  unfolding insert_issue_event statement
  insert_again p d there =
      let (e, found) =
        found_of_any (is_event_key p.gitlab_event_id p.project_id) d.issue_events there in
      ground (arith, found)

  insert_transition_again :
      (raw : RawEvent) (le : GitlabLabelEvent) (state : String) (u : Bool) (issue : Issue) (d : Db)
      → is_recorded raw le d ≡ true
      → (insert_transition s raw le state u issue d).1.issue_events ≡ d.issue_events
  unfolding insert_transition
  insert_transition_again raw le state u issue d there =
      let (last, d₁) = get_last_issue_event s.env issue.id d in
      let p = event_params raw issue le state (known_event last) in
      let (r, d₂) = insert_issue_event s.env p d₁ in
      after_insert-issue_events raw issue state u r d₂
      ∙ insert_again p d₁ (rw (last_event-issue_events issue.id d) there)
      ∙ last_event-issue_events issue.id d

  ensured_again :
      (raw : RawEvent) (le : GitlabLabelEvent) (state : String) (u : Bool)
      → (ensured : Result Issue × Db) (d : Db) → ensured.1.issue_events ≡ d.issue_events
      → is_recorded raw le d ≡ true
      → (continue
          (handle ensured (transform_error s raw))
          (insert_transition s raw le state u)).1.issue_events
        ≡ d.issue_events
  unfolding transform_error record_transform_result record_metric
  ensured_again raw le state u (ok issue, d₁) d same there =
      insert_transition_again raw le state u issue d₁ (rw same there) ∙ same
  ensured_again raw le state u (err e, d₁) d same there = ground arith

  log_unknown-issue_events :
      (raw : RawEvent) (le : GitlabLabelEvent) (state : String) (d : Db)
      → (log_unknown_label s raw le state d).1.issue_events ≡ d.issue_events
  unfolding log_unknown_label record_transform_result record_metric upsert_unknown_label statement
  log_unknown-issue_events raw le state d = ground arith

  update_metadata-issue_events :
      (id : ℕ) (key label : String) (d : Db)
      → (update_metadata s id key label d).1.issue_events ≡ d.issue_events
  unfolding update_metadata get_issue_by_id update_issue_metadata statement
  update_metadata-issue_events id key label d = ground arith

  ensured_metadata :
      (raw : RawEvent) (key label : String)
      → (ensured : Result Issue × Db) (d : Db) → ensured.1.issue_events ≡ d.issue_events
      → (continue
          (handle ensured (transform_error s raw))
          (λ issue. attempt (update_metadata s issue.id key label) >>= λ _. pure tt)).1.issue_events
        ≡ d.issue_events
  unfolding transform_error record_transform_result record_metric
  ensured_metadata raw key label (ok issue, d₁) d same =
      update_metadata-issue_events issue.id key label d₁ ∙ same
  ensured_metadata raw key label (err e, d₁) d same = ground arith

  metadata_label-issue_events :
      (raw : RawEvent) (label : String) (d : Db)
      → (transform_metadata_label s raw label d).1.issue_events ≡ d.issue_events
  unfolding transform_metadata_label
  metadata_label-issue_events raw label d =
      let key = metadata_key s.lib s.mapper label in
      let ensured = ensure_issue s raw.project_id raw.issue_iid d in
      ground (
        arith,
        ensured_metadata raw key label ensured d
            (ensure_issue-issue_events raw.project_id raw.issue_iid d),
      )

  logged_again :
      (raw : RawEvent) (le : GitlabLabelEvent) (state : String)
      → (logged : Result Bool × Db) (d : Db) → logged.1.issue_events ≡ d.issue_events
      → is_recorded raw le d ≡ true
      → (continue logged (λ u.
          if le.action == "remove"
          then pure tt
          else persist_transition s raw le state u)).1.issue_events
        ≡ d.issue_events
  unfolding persist_transition
  logged_again raw le state (err e, d₁) d same there = same
  logged_again raw le state (ok u, d₁) d same there =
      let ensured = ensure_issue s raw.project_id raw.issue_iid d₁ in
      ground (
        arith,
        ensured_again raw le state u ensured d₁
            (ensure_issue-issue_events raw.project_id raw.issue_iid d₁) (rw same there),
      )

  label_state_again :
      (raw : RawEvent) (le : GitlabLabelEvent) (state : String) (d : Db)
      → is_recorded raw le d ≡ true
      → (transform_label_state s raw le state d).1.issue_events ≡ d.issue_events
  unfolding transform_label_state
  label_state_again raw le state d there = ground (
    arith,
    metadata_label-issue_events raw (label_added le) d,
    logged_again raw le state (log_unknown_label s raw le state d) d
        (log_unknown-issue_events raw le state d) there,
  )

  -- A label event whose row is in `issue_events` already, by its GitLab id and its project, leaves
  -- that table as it is when it is transformed again, whatever the mapper says of its label by now,
  -- and whichever statements fail.
  pub transform_event-redelivered :
      (raw : RawEvent) (le : GitlabLabelEvent) (d : Db)
      → raw.event_type ≡ "label_event"
      → s.codec.decode_label_event raw.raw_payload ≡ some le
      → is_recorded raw le d ≡ true
      → (transform_event s raw d).1.issue_events ≡ d.issue_events
  unfolding transform_label
  transform_event-redelivered raw le d type decoded there =
      ap (λ r. r.1.issue_events) (transform_event-label s raw le d type decoded)
      ∙ label_state_again raw le
          (determine_canonical_state s.lib s.mapper le.action (label_added le) (label_removed le)) d
          there
