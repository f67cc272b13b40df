-- ===== src/Tests/Transforming.antt =====
-- The transformer on the sample data.
use gitlab_elt.Common.{ℕ, List, suc, none, some, [], ◌∷◌, ◌≡◌, refl, find?, nat_eq, ◌==◌}
use gitlab_elt.Domain.{GitlabLabelEvent}
use gitlab_elt.Repository.{Issue, ok}
use gitlab_elt.Repository.Keys.{IsConsistent}
use gitlab_elt.Repository.Latest.{IsLatest, last_event-IsLatest}
use gitlab_elt.Repository.Silver.{last_event, is_issue}
use gitlab_elt.Transformer.EdgeCases.{calculate_cycle_count}
use gitlab_elt.Transformer.Batch.{transform_all, transform_batch}
use gitlab_elt.Transformer.Batch.Consistent.{transform_all-IsConsistent}
use gitlab_elt.Transformer.Batch.Marking.{IsMarked, Transforms, listed, transform_batch-Marks}
use gitlab_elt.Transformer.Batch.Poison.{transform_all-malformed}
use gitlab_elt.Transformer.Batch.Termination.{Returns, waiting, transform_all-Returns}
use gitlab_elt.Transformer.Frame.Growth.{Grows, transform_event-Grows}
use gitlab_elt.Transformer.Labels.Redelivered.{transform_event-redelivered}
use gitlab_elt.Transformer.Labels.Removed.{transform_event-remove}
use gitlab_elt.Transformer.Service.{Service, transform_event, ensure_issue, event_params}
use gitlab_elt.Transformer.Stubs.{IsErased, ensure_issue-erases}
use gitlab_elt.Tests.Sample.{
  db-IsConsistent, service, env, db, db_recorded, raw, added, removed, issue, codec, reviewed,
  recorded,
}

-- The recorded row: no noise, and a first round of rework, since the issue comes back from review.
recorded_row :
    (event_params
      (raw 2 "added")
      issue
      added
      "IN_PROGRESS"
      (last_event 1 (reviewed ∷ []))).cycle_count
    ≡ some 1
unfolding last_event calculate_cycle_count
recorded_row = refl

transform_event-redelivered_example :
    (transform_event service (raw 2 "added") db_recorded).1.issue_events ≡ reviewed ∷ recorded ∷ []
transform_event-redelivered_example =
    transform_event-redelivered service (raw 2 "added") added db_recorded refl refl refl

transform_event-remove_example : transform_event service (raw 2 "removed") db ≡ (ok tt, db)
transform_event-remove_example =
    transform_event-remove service (raw 2 "removed") removed db refl refl refl

transform_event-Grows_example : Grows db (transform_event service (raw 2 "added") db).1
transform_event-Grows_example = transform_event-Grows service (raw 2 "added") db

transform_all-IsConsistent_example : IsConsistent (transform_all service 3 db).1
transform_all-IsConsistent_example = transform_all-IsConsistent service 3 db db-IsConsistent

transform_all-Returns_example : Returns (transform_all service (suc (waiting db.raw_events)) db)
transform_all-Returns_example = transform_all-Returns service db

transform_batch-Marks_example :
    (ids : List ℕ) × Transforms service (listed service db) (raw 1 "broken" ∷ []) ids
    × IsMarked ids db.raw_events
        (transform_batch service db).0
        (transform_batch service db).1.raw_events
transform_batch-Marks_example = transform_batch-Marks service db

-- The batch of one event is the broken one, so the good one behind it stays unprocessed.
transform_all-malformed_example :
    ((transform_all service 5 db).0 ≡ some (0, none))
    × ((transform_all service 5 db).1.raw_events ≡ raw 1 "broken" ∷ raw 2 "added" ∷ [])
transform_all-malformed_example = transform_all-malformed service 4 db (refl, tt) refl

-- The first statement fails.
abbrev flaky : Service
flaky = record service { env = record env { fails = λ t. t == 0 } }

ensure_issue-erases_example :
    (j : Issue) × IsErased issue j
    × (find? (is_issue 3 5) (ensure_issue flaky 3 5 db).1.issues ≡ some j)
ensure_issue-erases_example = ensure_issue-erases flaky 3 5 db issue refl refl refl

last_event-IsLatest_example :
    IsLatest 1 (reviewed ∷ recorded ∷ []) (last_event 1 (reviewed ∷ recorded ∷ []))
last_event-IsLatest_example = last_event-IsLatest 1 (reviewed ∷ recorded ∷ [])

-- A label that no mapping names.
abbrev mystery : GitlabLabelEvent
mystery = record added { id = 13; label = record { id = 2; name = "mystery" } }

abbrev unmapping : Service
unmapping = record service { codec = record codec { decode_label_event = λ t. some mystery } }
