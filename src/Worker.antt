-- ===== src/Worker.antt =====
-- cmd/worker/main.go and cmd/backfill/main.go: the two functions that the worker gives to the
-- scheduler, and the one run of the backfill. The jobs of the worker are taken one after the other.
pub mod Runs
pub mod Startup
pub mod Observed
pub mod Backfill
use gitlab_elt.Common.{ℕ, suc, Option, none, some}
use gitlab_elt.Discovery.{Service as DiscoveryService, run as run_discovery}
use gitlab_elt.Repository.{Db, Err, Result, ok, err, db_failure, Action, attempt, ◌>>=◌, ◌>>◌}
use gitlab_elt.Sync.{Extractor, extract_all}
use gitlab_elt.Transformer.Service.{Service}
use gitlab_elt.Transformer.Batch.{transform_all}
use gitlab_elt.Transformer.Batch.Termination.{waiting}

pub record Worker : Type 0 where
  pub extractor : Extractor
  pub transformer : Service
  pub discovery : DiscoveryService

-- The error of `TransformAll`. With enough fuel there is a result.
abbrev pub transformed : Option (ℕ × Option Err) × Db → Result (Unit {0}) × Db
transformed (none, d) = (err db_failure, d)
transformed (some (n, none), d) = (ok tt, d)
transformed (some (n, some e), d) = (err e, d)

module _ (w : Worker) where
  unfoldable pub transform : Action (Unit {0})
  transform d = transformed (transform_all w.transformer (suc (waiting d.raw_events)) d)

  -- An error of the extraction is logged, and the transformation comes all the same.
  unfoldable pub sync_func : Action (Unit {0})
  sync_func = attempt (extract_all w.extractor) >> transform

  unfoldable pub discover_func : Action (Unit {0})
  discover_func = run_discovery w.discovery

  -- An error of the discovery ends the backfill.
  unfoldable pub backfill : Action (Unit {0})
  backfill = run_discovery w.discovery >> (attempt (extract_all w.extractor) >> transform)
