-- ===== src/Worker/Runs.antt =====
-- Sequences of jobs of the worker and of backfills (cmd/worker/main.go, cmd/backfill/main.go).
use gitlab_elt.Common.{ℕ, suc, Option, none, some}
use gitlab_elt.Repository.{Db, Err}
use gitlab_elt.Repository.Frame.{IsFrame, Keeps, >>=-Keeps, attempt-Keeps}
use gitlab_elt.Repository.Keys.{IsConsistent}
use gitlab_elt.Repository.Silent.{SameSilver, SameSilver-IsConsistent}
use gitlab_elt.Discovery.{run as run_discovery}
use gitlab_elt.Discovery.Silent.{run-SameSilver}
use gitlab_elt.Sync.{extract_all}
use gitlab_elt.Sync.Appends.{extract_all-Appends}
use gitlab_elt.Transformer.Batch.{transform_all}
use gitlab_elt.Transformer.Batch.Consistent.{transform_all-IsConsistent, transform_all-KeepsRows}
use gitlab_elt.Transformer.Batch.Termination.{waiting}
use gitlab_elt.Transformer.Frame.Rows.{KeepsRows, KeepsRows-IsFrame, SameSilver-KeepsRows}
use gitlab_elt.Worker.{Worker, transformed, transform, sync_func, discover_func, backfill}

-- One job, of a worker as it is configured at that time.
pub data Step : Db → Db → Type 0 where
  synced : (w : Worker) (d : Db) → Step d (sync_func w d).1
  discovered : (w : Worker) (d : Db) → Step d (discover_func w d).1
  backfilled : (w : Worker) (d : Db) → Step d (backfill w d).1

-- Any number of jobs.
pub data Reaches (d : Db) : Db → Type 0 where
  start : Reaches d d
  step : (e f : Db) → Reaches d e → Step e f → Reaches d f

-- What a job keeps: the unique keys, and the rows that were there.
abbrev pub Preserves : Db → Db → Type 0
Preserves d e = (IsConsistent d → IsConsistent e) × KeepsRows d e

Preserves-IsFrame : IsFrame Preserves
Preserves-IsFrame = record {
  same = λ d. ((λ c. c), KeepsRows-IsFrame.same d);
  then_also = λ d e f g h. ((λ c. h.0 (g.0 c)), KeepsRows-IsFrame.then_also d e f g.1 h.1);
}

SameSilver-Preserves : (d e : Db) → SameSilver d e → Preserves d e
SameSilver-Preserves d e same = (SameSilver-IsConsistent d e same, SameSilver-KeepsRows d e same)

module _ (w : Worker) where
  transformed-Preserves :
      (d : Db) (r : Option (ℕ × Option Err) × Db) → Preserves d r.1 → Preserves d (transformed r).1
  transformed-Preserves d (none, d') h = h
  transformed-Preserves d (some (n, none), d') h = h
  transformed-Preserves d (some (n, some e), d') h = h

  transform-Preserves : Keeps Preserves (transform w)
  unfolding transform
  transform-Preserves = record {
    holds = λ d.
        let fuel = suc (waiting d.raw_events) in
        transformed-Preserves d (transform_all w.transformer fuel d) (
          transform_all-IsConsistent w.transformer fuel d,
          transform_all-KeepsRows w.transformer fuel d,
        );
  }

  extract-Preserves : Keeps Preserves (extract_all w.extractor)
  extract-Preserves = record {
    holds = λ d.
        SameSilver-Preserves d (extract_all w.extractor d).1
          (extract_all-Appends w.extractor d).silver;
  }

  sync-Preserves : Keeps Preserves (sync_func w)
  unfolding sync_func
  sync-Preserves =
      >>=-Keeps Preserves-IsFrame (attempt-Keeps Preserves-IsFrame extract-Preserves)
        (λ _. transform-Preserves)

  discover-Preserves : Keeps Preserves (run_discovery w.discovery)
  discover-Preserves = record {
    holds =
        λ d. SameSilver-Preserves d (run_discovery w.discovery d).1 (run-SameSilver w.discovery d);
  }

  pub backfill-Preserves : Keeps Preserves (backfill w)
  unfolding backfill
  backfill-Preserves = >>=-Keeps Preserves-IsFrame discover-Preserves (λ _.
      >>=-Keeps Preserves-IsFrame (attempt-Keeps Preserves-IsFrame extract-Preserves)
        (λ _. transform-Preserves))

Step-Preserves : {d e : Db} → Step d e → Preserves d e
unfolding discover_func
Step-Preserves (synced w d) = (sync-Preserves w).holds d
Step-Preserves (discovered w d) = (discover-Preserves w).holds d
Step-Preserves (backfilled w d) = (backfill-Preserves w).holds d

Reaches-Preserves : {d f : Db} → Reaches d f → Preserves d f
Reaches-Preserves {d} start = Preserves-IsFrame.same d
Reaches-Preserves {d} (step e f before last) =
    Preserves-IsFrame.then_also d e f (Reaches-Preserves before) (Step-Preserves last)

-- After any number of syncs, discoveries and backfills, in any order, by workers configured in any
-- way, whatever GitLab answers and whichever statements fail, the unique keys hold, if they held at
-- first; and no issue event, comment or issue that was there is lost: the events and the comments
-- stand unchanged where they stood, the issues with their project and number.
pub Reaches-IsConsistent :
    {d e : Db} → Reaches d e → IsConsistent d → IsConsistent e × KeepsRows d e
Reaches-IsConsistent run c = let (keeps, rows) = Reaches-Preserves run in (keeps c, rows)
