-- ===== src/Transformer/Batch/Poison.antt =====
-- What the loop of `TransformAll` (internal/transformer/service.go) does when no event at the head of
-- the queue can be transformed.
use gitlab_elt.Common.{
  ℕ, ◌+◌, suc, Bool, true, false, Option, none, some, List, [], ◌∷◌, ◌==◌, ◌≡◌, ◌∙◌, refl, ap,
  string_eq, if◌then◌else◌, All, arith,
}
use gitlab_elt.Domain.{GitlabLabelEvent, GitlabNote}
use gitlab_elt.Repository.{
  Env, Metric, sync_run, Db, RawEvent, Err, Result, ok, err, bad_json, statement, record_metric,
}
use gitlab_elt.Repository.Bronze.{list_unprocessed_raw_events}
use gitlab_elt.Transformer.Service.{
  Service, transform_event, transform_label_event, transform_label_payload, transform_note,
  transform_note_payload, transform_error, record_transform_result,
}
use gitlab_elt.Transformer.Batch.{
  add_id, next_round, transform_events, mark_processed, transform_listed, transform_batch,
  transform_rounds, transform_all, status,
}
use gitlab_elt.Transformer.Batch.Marking.{batch_of, listed, transform_events-raw_events}

abbrev is_none : {A : Type 0} → Option A → Bool
is_none none = true
is_none (some a) = false

record_metric-raw_events :
    (env : Env) (m : Metric) (d : Db) → (record_metric env m d).1.raw_events ≡ d.raw_events
unfolding record_metric
record_metric-raw_events env m d = ground arith

module _ (s : Service) where
  -- The payload of the event does not parse.
  abbrev pub is_malformed : RawEvent → Bool
  is_malformed raw =
      if raw.event_type == "label_event"
      then is_none (s.codec.decode_label_event raw.raw_payload)
      else if raw.event_type == "note"
      then is_none (s.codec.decode_note raw.raw_payload)
      else false

  label_payload-malformed :
      (raw : RawEvent) (p : Option GitlabLabelEvent) (d : Db)
      → is_none p ≡ true
      → (transform_label_payload s raw p d).0 ≡ err bad_json
  unfolding transform_label_payload transform_error record_transform_result record_metric
  label_payload-malformed raw none d h = refl
  label_payload-malformed raw (some le) d h = cc

  note_payload-malformed :
      (raw : RawEvent) (p : Option GitlabNote) (d : Db)
      → is_none p ≡ true
      → (transform_note_payload s raw p d).0 ≡ err bad_json
  unfolding transform_note_payload transform_error record_transform_result record_metric
  note_payload-malformed raw none d h = refl
  note_payload-malformed raw (some note) d h = cc

  transform_event-malformed :
      (raw : RawEvent) (d : Db)
      → is_malformed raw ≡ true
      → (transform_event s raw d).0 ≡ err bad_json
  unfolding transform_event transform_label_event transform_note
  transform_event-malformed raw d h = ground (
    arith,
    label_payload-malformed raw (s.codec.decode_label_event raw.raw_payload) d,
    note_payload-malformed raw (s.codec.decode_note raw.raw_payload) d,
  )

  add_id-err :
      (r : Result Unit) (id : ℕ) (ids : List ℕ) → r ≡ err bad_json → ids ≡ [] → add_id r id ids ≡ []
  add_id-err (ok _) id ids h e = cc
  add_id-err (err _) id ids h e = e

  transform_events-malformed :
      (raws : List RawEvent) (d : Db)
      → All (λ raw. is_malformed raw ≡ true) raws
      → (transform_events s raws d).0 ≡ []
  unfolding transform_events
  transform_events-malformed [] d h = refl
  transform_events-malformed (raw ∷ raws) d h =
      let (r, d') = transform_event s raw d in
      add_id-err r raw.id (transform_events s raws d').0 (transform_event-malformed raw d h.0)
        (transform_events-malformed raws d' h.1)

  mark_processed-nil : (run : List ℕ × Db) → run.0 ≡ [] → mark_processed s run ≡ ((0, none), run.1)
  unfolding mark_processed
  mark_processed-nil ([], d) e = refl
  mark_processed-nil (id ∷ ids, d) e = cc

  transform_listed-malformed :
      (raws : List RawEvent) (d : Db)
      → All (λ raw. is_malformed raw ≡ true) raws
      → let round = transform_listed s (ok raws, d) in
        (round.0 ≡ (0, none)) × (round.1.raw_events ≡ d.raw_events)
  unfolding transform_listed
  transform_listed-malformed [] d h = (refl, refl)
  transform_listed-malformed (raw ∷ raws) d h =
      let run = transform_events s (raw ∷ raws) d in
      let e = mark_processed-nil run (transform_events-malformed (raw ∷ raws) d h) in
      (ap (λ r. r.0) e, ap (λ r. r.1.raw_events) e ∙ transform_events-raw_events s (raw ∷ raws) d)

  next_round-zero :
      (total : ℕ)
      → (round : (ℕ × Option Err) × Db) → round.0 ≡ (0, none)
      → (rest : Option (ℕ × Option Err) × Db)
      → next_round total round rest ≡ (some (total, none), round.1)
  next_round-zero total round e rest = rw e refl

  transform_batch-malformed :
      (d : Db)
      → All (λ raw. is_malformed raw ≡ true) (batch_of s d)
      → s.env.fails d.tick ≡ false
      → let round = transform_batch s d in
        (round.0 ≡ (0, none)) × (round.1.raw_events ≡ d.raw_events)
  unfolding transform_batch list_unprocessed_raw_events statement
  transform_batch-malformed d h works =
      rw works (transform_listed-malformed (batch_of s d) (listed s d) h)

  -- Where no event of a batch parses, and the query that lists them works, `TransformAll` ends with
  -- its first round: it returns 0 events and no error, and marks none of the events, not those
  -- behind the batch either.
  pub transform_all-malformed :
      (fuel : ℕ) (d : Db)
      → All (λ raw. is_malformed raw ≡ true) (batch_of s d)
      → s.env.fails d.tick ≡ false
      → let run = transform_all s (suc fuel) d in
        (run.0 ≡ some (0, none)) × (run.1.raw_events ≡ d.raw_events)
  unfolding transform_all transform_rounds
  transform_all-malformed fuel d h works =
      let round = transform_batch s d in
      let batch = transform_batch-malformed d h works in
      let run = next_round 0 round (transform_rounds s fuel (0 + round.0.0) round.1) in
      let e = next_round-zero 0 round batch.0 (transform_rounds s fuel (0 + round.0.0) round.1) in
      (
        ap (λ r. r.0) e,
        record_metric-raw_events s.env (sync_run "transform" (status s run.0)) run.1
            ∙ ap (λ r. r.1.raw_events) e
            ∙ batch.1,
      )
