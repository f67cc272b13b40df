-- ===== src/Transformer/Batch/Termination.antt =====
-- The rounds of `TransformAll` (internal/transformer/service.go) and the number of the events that
-- wait.
use gitlab_elt.Common.{
  ℕ, zero, suc, ◌+◌, ◌≤◌, ◌<◌, true, Option, none, some, List, [], ◌∷◌, ◌≡◌, ◌≢◌, ◌∙◌, refl, nat_eq,
  ==_iff, arith, length, contains, take, All,
}
use gitlab_elt.Repository.{Db, RawEvent, Err}
use gitlab_elt.Repository.Bronze.{unprocessed, set_processed}
use gitlab_elt.Transformer.Service.{Service}
use gitlab_elt.Transformer.Batch.{transform_batch, transform_rounds, transform_all, next_round}
use gitlab_elt.Transformer.Batch.Marking.{
  IsIdOf, transform_events-ids, batch_of, listed, transformed_ids, Marks, batch_marked,
}

-- How many events wait.
abbrev pub waiting : List RawEvent → ℕ
waiting raws = length (unprocessed raws)

waiting-set_processed-le :
    (ids : List ℕ) (raws : List RawEvent) → waiting (set_processed ids raws) ≤ waiting raws
waiting-set_processed-le ids [] = omega arith
waiting-set_processed-le ids (e ∷ es) = ground (arith, waiting-set_processed-le ids es)

waiting-set_processed-lt :
    (id : ℕ) (ids : List ℕ) (raws : List RawEvent)
    → contains id ids ≡ true
    → IsIdOf (unprocessed raws) id
    → waiting (set_processed ids raws) < waiting raws
waiting-set_processed-lt id ids [] c h = cc
waiting-set_processed-lt id ids (e ∷ es) c h =
    ground
      (arith, waiting-set_processed-lt id ids es c, waiting-set_processed-le ids es, ==_iff e.id id)

IsIdOf-take : (n id : ℕ) (raws : List RawEvent) → IsIdOf (take n raws) id → IsIdOf raws id
IsIdOf-take zero id raws h = cc
IsIdOf-take (suc n) id [] h = h
IsIdOf-take (suc n) id (e ∷ es) h = ground (arith, IsIdOf-take n id es)

-- The loop ended within its fuel.
abbrev pub Returns : Option (ℕ × Option Err) × Db → Type 0
Returns run = (r : ℕ × Option Err) × (run.0 ≡ some r)

module _ (s : Service) where
  marked-lt :
      (d : Db) (ids : List ℕ)
      → All (IsIdOf (batch_of s d)) ids
      → length ids ≢ 0
      → waiting (set_processed ids d.raw_events) < waiting d.raw_events
  marked-lt d [] h ne = absurd (ne refl)
  marked-lt d (id ∷ ids) h ne =
      waiting-set_processed-lt id (id ∷ ids) d.raw_events (ground arith)
        (IsIdOf-take s.batch_size id (unprocessed d.raw_events) h.0)

  round-lt :
      (d : Db) (n : ℕ) (after : List RawEvent)
      → Marks (transformed_ids s d) d.raw_events (n, none) after
      → n ≢ 0
      → waiting after < waiting d.raw_events
  round-lt d n after (count, marked) ne = rw marked (
      marked-lt d (transformed_ids s d) (transform_events-ids s (batch_of s d) (listed s d))
        (λ e. ne (count ∙ e)))

  next_round-total :
      (total bound : ℕ) (d : Db)
      → (round : (ℕ × Option Err) × Db)
      → Marks (transformed_ids s d) d.raw_events round.0 round.1.raw_events
      → waiting d.raw_events < suc bound
      → (rest : Option (ℕ × Option Err) × Db) → (waiting round.1.raw_events < bound → Returns rest)
      → Returns (next_round total round rest)
  next_round-total total bound d ((n, some e), d') marks lt rest ih = ((total, some e), refl)
  next_round-total total bound d ((zero, none), d') marks lt rest ih = ((total, none), refl)
  next_round-total total bound d ((suc n, none), d') marks lt rest ih =
      let less = round-lt d (suc n) d'.raw_events marks (omega arith) in
      let (r, e) = ih (omega arith) in (r, ground arith)

  transform_rounds-Returns :
      (fuel total : ℕ) (d : Db)
      → waiting d.raw_events < fuel
      → Returns (transform_rounds s fuel total d)
  unfolding transform_rounds
  transform_rounds-Returns zero total d lt = absurd (omega arith)
  transform_rounds-Returns (suc fuel) total d lt =
      let round = transform_batch s d in
      next_round-total total fuel d round (batch_marked s d) lt
        (transform_rounds s fuel (total + round.0.0) round.1)
        (transform_rounds-Returns fuel (total + round.0.0) round.1)

  -- `TransformAll` returns: fuel for one round more than there are unprocessed events is enough,
  -- whatever statements fail and whatever the payloads are.
  pub transform_all-Returns : (d : Db) → Returns (transform_all s (suc (waiting d.raw_events)) d)
  unfolding transform_all
  transform_all-Returns d = transform_rounds-Returns (suc (waiting d.raw_events)) 0 d (omega arith)
