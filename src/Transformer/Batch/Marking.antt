-- ===== src/Transformer/Batch/Marking.antt =====
-- Which raw events a batch marks as processed (internal/transformer/service.go, `TransformBatch`).
use gitlab_elt.Common.{
  map, ap, contains, select, not, ℕ, suc, Bool, true, false, Option, none, some, List, [], ◌∷◌,
  ◌==◌, ◌≡◌, ◌∙◌, refl, sym, subst, nat_eq, arith, if◌then◌else◌, length, any, take, All,
}
use gitlab_elt.Repository.{Db, RawEvent, Result, ok, err, Err, db_failure, statement}
use gitlab_elt.Repository.Bronze.{
  unprocessed, set_processed, list_unprocessed_raw_events, mark_raw_events_processed_batch,
}
use gitlab_elt.Transformer.Service.{Service, transform_event}
use gitlab_elt.Transformer.Frame.Growth.{transform_event-Grows}
use gitlab_elt.Transformer.Batch.{
  add_id, transform_events, mark_processed, transform_listed, transform_batch,
}

-- An id of one of the events.
abbrev pub IsIdOf : List RawEvent → ℕ → Type 0
IsIdOf raws id = any (λ e. e.id == id) raws ≡ true

IsIdOf-cons :
    (raw : RawEvent) (raws : List RawEvent) (ids : List ℕ)
    → All (IsIdOf raws) ids
    → All (IsIdOf (raw ∷ raws)) ids
IsIdOf-cons raw raws [] h = tt
IsIdOf-cons raw raws (id ∷ ids) h = (ground arith, IsIdOf-cons raw raws ids h.1)

set_processed-nil : (raws : List RawEvent) → set_processed [] raws ≡ raws
set_processed-nil [] = refl
set_processed-nil (e ∷ es) = ground (arith, set_processed-nil es)

-- What the end of a batch does to the raw events: with an error, nothing; else the events of `ids`
-- are marked, and their number is the result.
abbrev pub Marks : List ℕ → List RawEvent → ℕ × Option Err → List RawEvent → Type 0
Marks ids before (n, none) after = (n ≡ length ids) × (after ≡ set_processed ids before)
Marks ids before (n, some e) after = after ≡ before

set_processed-map :
    (ids : List ℕ) (raws : List RawEvent)
    → set_processed ids raws
      ≡ map (λ (e : RawEvent). if contains e.id ids then record e { processed = true } else e) raws
set_processed-map ids [] = refl
set_processed-map ids (e ∷ es) =
    ap (λ fs. (if contains e.id ids then record e { processed = true } else e) ∷ fs)
      (set_processed-map ids es)

-- The same row by row.
abbrev pub IsMarked : List ℕ → List RawEvent → ℕ × Option Err → List RawEvent → Type 0
IsMarked ids before (n, none) after =
    (n ≡ length ids)
    × (after
        ≡ map (λ (e : RawEvent). if contains e.id ids then record e { processed = true } else e)
            before)
IsMarked ids before (n, some e) after = after ≡ before

Marks-IsMarked :
    (ids : List ℕ) (before after : List RawEvent) (r : ℕ × Option Err)
    → Marks ids before r after
    → IsMarked ids before r after
Marks-IsMarked ids before after (n, none) (count, marked) =
    (count, marked ∙ set_processed-map ids before)
Marks-IsMarked ids before after (n, some e) same = same

unprocessed-select :
    (raws : List RawEvent) → unprocessed raws ≡ select (λ (e : RawEvent). not e.processed) raws
unprocessed-select [] = refl
unprocessed-select (e ∷ es) = ground (arith, unprocessed-select es)

module _ (s : Service) where
  pub transform_events-raw_events :
      (raws : List RawEvent) (d : Db) → (transform_events s raws d).1.raw_events ≡ d.raw_events
  unfolding transform_events
  transform_events-raw_events [] d = refl
  transform_events-raw_events (raw ∷ raws) d =
      transform_events-raw_events raws (transform_event s raw d).1
      ∙ (transform_event-Grows s raw d).raw_events

  add_id-ids :
      (r : Result Unit) (raw : RawEvent) (raws : List RawEvent) (ids : List ℕ)
      → All (IsIdOf raws) ids
      → All (IsIdOf (raw ∷ raws)) (add_id r raw.id ids)
  add_id-ids (ok _) raw raws ids h = (ground arith, IsIdOf-cons raw raws ids h)
  add_id-ids (err _) raw raws ids h = IsIdOf-cons raw raws ids h

  pub transform_events-ids :
      (raws : List RawEvent) (d : Db) → All (IsIdOf raws) (transform_events s raws d).0
  unfolding transform_events
  transform_events-ids [] d = tt
  transform_events-ids (raw ∷ raws) d =
      let (r, d₁) = transform_event s raw d in
      add_id-ids r raw raws (transform_events s raws d₁).0 (transform_events-ids raws d₁)

  -- The events of the batch, and the ids of those that were transformed without an error.
  abbrev pub batch_of : Db → List RawEvent
  batch_of d = take s.batch_size (unprocessed d.raw_events)

  abbrev pub listed : Db → Db
  listed d = record d { tick = suc d.tick }

  abbrev pub transformed_ids : Db → List ℕ
  transformed_ids d = (transform_events s (batch_of d) (listed d)).0

  -- One transformation after the other, each on the database that the one before left, and the ids of
  -- the events whose transformation gave no error.
  pub data Transforms : Db → List RawEvent → List ℕ → Type 0 where
    nothing_left : (d : Db) → Transforms d [] []
    worked :
        (d : Db) (raw : RawEvent) (raws : List RawEvent) (ids : List ℕ)
        → (transform_event s raw d).0 ≡ ok tt
        → Transforms (transform_event s raw d).1 raws ids
        → Transforms d (raw ∷ raws) (raw.id ∷ ids)
    failed :
        (d : Db) (raw : RawEvent) (raws : List RawEvent) (ids : List ℕ) (e : Err)
        → (transform_event s raw d).0 ≡ err e
        → Transforms (transform_event s raw d).1 raws ids
        → Transforms d (raw ∷ raws) ids

  add_id-Transforms :
      (raw : RawEvent) (raws : List RawEvent) (ids : List ℕ) (r : Result Unit) (d : Db)
      → (transform_event s raw d).0 ≡ r
      → Transforms (transform_event s raw d).1 raws ids
      → Transforms d (raw ∷ raws) (add_id r raw.id ids)
  add_id-Transforms raw raws ids (ok done) d gave rest = worked d raw raws ids gave rest
  add_id-Transforms raw raws ids (err e) d gave rest = failed d raw raws ids e gave rest

  transform_events-Transforms :
      (raws : List RawEvent) (d : Db) → Transforms d raws (transform_events s raws d).0
  unfolding transform_events
  transform_events-Transforms [] d = nothing_left d
  transform_events-Transforms (raw ∷ raws) d =
      let (r, d₁) = transform_event s raw d in
      add_id-Transforms raw raws (transform_events s raws d₁).0 r d refl
        (transform_events-Transforms raws d₁)

  mark_processed-Marks :
      (ids : List ℕ) (d : Db)
      → Marks ids d.raw_events
          (mark_processed s (ids, d)).0
          (mark_processed s (ids, d)).1.raw_events
  unfolding mark_processed mark_raw_events_processed_batch statement
  mark_processed-Marks [] d = (refl, sym (set_processed-nil d.raw_events))
  mark_processed-Marks (id ∷ ids) d = ground arith

  listed-Marks :
      (raws : List RawEvent) (d : Db)
      → let (r, d') = transform_listed s (ok raws, d) in
        Marks (transform_events s raws d).0 d.raw_events r d'.raw_events
  unfolding transform_listed transform_events
  listed-Marks [] d = (refl, sym (set_processed-nil d.raw_events))
  listed-Marks (raw ∷ raws) d =
      let (ids, d') = transform_events s (raw ∷ raws) d in
      subst
        (λ before.
          Marks ids before (mark_processed s (ids, d')).0 (mark_processed s (ids, d')).1.raw_events)
        (transform_events-raw_events (raw ∷ raws) d) (mark_processed-Marks ids d')

  decided-Marks :
      (fails : Bool) (d : Db)
      → let (r, d') =
          transform_listed s
            (if fails then (err db_failure, listed d) else (ok (batch_of d), listed d)) in
        Marks (transformed_ids d) d.raw_events r d'.raw_events
  unfolding transform_listed
  decided-Marks true d = refl
  decided-Marks false d = listed-Marks (batch_of d) (listed d)

  pub batch_marked :
      (d : Db)
      → let (r, d') = transform_batch s d in Marks (transformed_ids d) d.raw_events r d'.raw_events
  unfolding transform_batch list_unprocessed_raw_events statement
  batch_marked d = decided-Marks (s.env.fails d.tick) d

  -- After a batch that returns no error, the raw events are those before it with exactly the events
  -- marked whose transformation gave no error, when the unprocessed events up to the size of a batch
  -- are transformed one after the other, each on the database that the one before left; the count is
  -- the number of the marked ones. A batch that returns an error marks nothing.
  pub transform_batch-Marks :
      (d : Db)
      → (ids : List ℕ) × Transforms
          (listed d)
          (take s.batch_size (select (λ (e : RawEvent). not e.processed) d.raw_events))
          ids
        × IsMarked ids d.raw_events (transform_batch s d).0 (transform_batch s d).1.raw_events
  transform_batch-Marks d =
      let (r, d') = transform_batch s d in
      (
        transformed_ids d,
        subst (λ es. Transforms (listed d) (take s.batch_size es) (transformed_ids d))
            (unprocessed-select d.raw_events) (transform_events-Transforms (batch_of d) (listed d)),
        Marks-IsMarked (transformed_ids d) d.raw_events d'.raw_events r (batch_marked d),
      )
