-- ===== src/Transformer/Batch.antt =====
-- internal/transformer/service.go, `TransformBatch` and `TransformAll`. Each returns a count beside
-- its error, as the source does.
pub mod Marking
pub mod Termination
pub mod Poison
pub mod Frame
pub mod Consistent
use gitlab_elt.Common.{
  ℕ, zero, suc, ◌+◌, String, Bool, true, false, Option, none, some, List, [], ◌∷◌, ◌==◌, nat_eq,
  if◌then◌else◌, length,
}
use gitlab_elt.Repository.{Db, RawEvent, Err, Result, ok, err, sync_run, record_metric}
use gitlab_elt.Repository.Bronze.{list_unprocessed_raw_events, mark_raw_events_processed_batch}
use gitlab_elt.Transformer.Service.{Service, transform_event}

abbrev pub add_id : {A : Type 0} → Result A → ℕ → List ℕ → List ℕ
add_id (ok _) id ids = id ∷ ids
add_id (err _) id ids = ids

abbrev pub error_of : {A : Type 0} → Result A → Option Err
error_of (ok _) = none
error_of (err e) = some e

-- What a round of `TransformAll` decides: a batch with an error or without a success is the last.
abbrev pub next_round :
    ℕ → (ℕ × Option Err) × Db → Option (ℕ × Option Err) × Db → Option (ℕ × Option Err) × Db
next_round total ((n, some e), d) rest = (some (total, some e), d)
next_round total ((n, none), d) rest = if n == 0 then (some (total, none), d) else rest

module _ (s : Service) where
  -- The loop over the batch: the ids of the events that were transformed. An event that fails is
  -- passed over.
  unfoldable pub transform_events : List RawEvent → Db → List ℕ × Db
  transform_events [] d = ([], d)
  transform_events (raw ∷ raws) d =
      let (r, d₁) = transform_event s raw d in
      let (ids, d₂) = transform_events raws d₁ in (add_id r raw.id ids, d₂)

  unfoldable pub mark_processed : List ℕ × Db → (ℕ × Option Err) × Db
  mark_processed ([], d) = ((0, none), d)
  mark_processed (id ∷ ids, d) =
      let (r, d') = mark_raw_events_processed_batch s.env (id ∷ ids) d in
      ((suc (length ids), error_of r), d')

  unfoldable pub transform_listed : Result (List RawEvent) × Db → (ℕ × Option Err) × Db
  transform_listed (err e, d) = ((0, some e), d)
  transform_listed (ok [], d) = ((0, none), d)
  transform_listed (ok (raw ∷ raws), d) = mark_processed (transform_events (raw ∷ raws) d)

  unfoldable pub transform_batch : Db → (ℕ × Option Err) × Db
  transform_batch d = transform_listed (list_unprocessed_raw_events s.env s.batch_size d)

  -- The loop of `TransformAll`, on fuel; `none` is the lack of it.
  unfoldable pub transform_rounds : ℕ → ℕ → Db → Option (ℕ × Option Err) × Db
  transform_rounds zero total d = (none, d)
  transform_rounds (suc fuel) total d =
      let round = transform_batch d in
      let rest = transform_rounds fuel (total + round.0.0) round.1 in next_round total round rest

  abbrev status : Option (ℕ × Option Err) → String
  status none = "error"
  status (some (n, none)) = "success"
  status (some (n, some e)) = "error"

  -- `TransformAll`, with the deferred metric of the run.
  unfoldable pub transform_all : ℕ → Db → Option (ℕ × Option Err) × Db
  transform_all fuel d =
      let (r, d') = transform_rounds fuel 0 d in
      (r, (record_metric s.env (sync_run "transform" (status r)) d').1)
