-- ===== src/Transformer/Batch/Frame.antt =====
-- Relations between the database before and after `TransformAll` (internal/transformer/service.go),
-- from the single event to the whole run. They do not depend on the raw events, the clock and the
-- metrics.
use gitlab_elt.Common.{ℕ, zero, suc, ◌+◌, Option, none, some, List, [], ◌∷◌, nat_eq, arith}
use gitlab_elt.Repository.{Db, RawEvent, Err, Result, ok, err, sync_run, statement, record_metric}
use gitlab_elt.Repository.Bronze.{list_unprocessed_raw_events, mark_raw_events_processed_batch}
use gitlab_elt.Repository.Frame.{IsFrame}
use gitlab_elt.Repository.Silent.{SameSilver, same_tables-SameSilver}
use gitlab_elt.Transformer.Service.{Service, transform_event}
use gitlab_elt.Transformer.Batch.{
  next_round, transform_events, mark_processed, transform_listed, transform_batch, transform_rounds,
  transform_all, status,
}

pub record KeepsBatches (s : Service) (R : Db → Db → Type 0) : Type 0 where
  pub frame : IsFrame R
  pub event : (raw : RawEvent) (d : Db) → R d (transform_event s raw d).1
  pub silent : (d e : Db) → SameSilver d e → R d e

module _ (s : Service) (R : Db → Db → Type 0) (k : KeepsBatches s R) where
  events-Keeps : (raws : List RawEvent) (d : Db) → R d (transform_events s raws d).1
  unfolding transform_events
  events-Keeps [] d = k.frame.same d
  events-Keeps (raw ∷ raws) d =
      let d₁ = (transform_event s raw d).1 in
      k.frame.then_also d d₁ (transform_events s raws d₁).1 (k.event raw d) (events-Keeps raws d₁)

  mark-Keeps : (run : List ℕ × Db) → R run.1 (mark_processed s run).1
  unfolding mark_processed mark_raw_events_processed_batch statement
  mark-Keeps ([], d) = k.frame.same d
  mark-Keeps (id ∷ ids, d) = k.silent d _ (same_tables-SameSilver d _ (ground arith))

  transform_listed-Keeps : (r : Result (List RawEvent) × Db) → R r.1 (transform_listed s r).1
  unfolding transform_listed
  transform_listed-Keeps (err e, d) = k.frame.same d
  transform_listed-Keeps (ok [], d) = k.frame.same d
  transform_listed-Keeps (ok (raw ∷ raws), d) =
      let run = transform_events s (raw ∷ raws) d in
      k.frame.then_also d run.1 (mark_processed s run).1 (events-Keeps (raw ∷ raws) d)
        (mark-Keeps run)

  list-Keeps : (d : Db) → R d (list_unprocessed_raw_events s.env s.batch_size d).1
  unfolding list_unprocessed_raw_events statement
  list-Keeps d = k.silent d _ (same_tables-SameSilver d _ (ground arith))

  batch-Keeps : (d : Db) → R d (transform_batch s d).1
  unfolding transform_batch
  batch-Keeps d =
      let listed = list_unprocessed_raw_events s.env s.batch_size d in
      k.frame.then_also d listed.1 (transform_listed s listed).1 (list-Keeps d)
        (transform_listed-Keeps listed)

  next_round-Keeps :
      (total : ℕ) (d : Db)
      → (round : (ℕ × Option Err) × Db) → (rest : Option (ℕ × Option Err) × Db) → R d round.1
      → R d rest.1
      → R d (next_round total round rest).1
  next_round-Keeps total d ((n, some e), d') rest h also = h
  next_round-Keeps total d ((n, none), d') rest h also = ground arith

  rounds-Keeps : (fuel total : ℕ) (d : Db) → R d (transform_rounds s fuel total d).1
  unfolding transform_rounds
  rounds-Keeps zero total d = k.frame.same d
  rounds-Keeps (suc fuel) total d =
      let round = transform_batch s d in
      let rest = transform_rounds s fuel (total + round.0.0) round.1 in
      let first = batch-Keeps d in
      next_round-Keeps total d round rest first
        (k.frame.then_also d round.1 rest.1 first (rounds-Keeps fuel (total + round.0.0) round.1))

  measured-Keeps :
      (run : Option (ℕ × Option Err) × Db)
      → R run.1 (record_metric s.env (sync_run "transform" (status s run.0)) run.1).1
  unfolding record_metric
  measured-Keeps run = k.silent run.1 _ (same_tables-SameSilver run.1 _ (ground arith))

  pub transform_all-Keeps : (fuel : ℕ) (d : Db) → R d (transform_all s fuel d).1
  unfolding transform_all
  transform_all-Keeps fuel d =
      let run = transform_rounds s fuel 0 d in
      k.frame.then_also d run.1
        (record_metric s.env (sync_run "transform" (status s run.0)) run.1).1
        (rounds-Keeps fuel 0 d) (measured-Keeps run)
