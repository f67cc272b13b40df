-- ===== src/Worker/Startup.antt =====
-- cmd/worker/main.go: the start of the worker, up to the loop of its scheduler. What is left out are
-- the set-up of the tracer and of the OTLP meter, whose errors are logged and passed over, the limiter
-- of the requests, and the health server.
pub mod Ready
pub mod Lifetime
pub mod Idle
use gitlab_elt.Common.{ℕ, String, Bool, true, false, not, length, if◌then◌else◌}
use gitlab_elt.Text.{TextLib}
use gitlab_elt.Json.{Codec}
use gitlab_elt.Repository.{Db, Env, Err, Result, ok, err, Metric, projects_monitored, record_metric}
use gitlab_elt.Mapper.{Mapper, new, load_from_db}
use gitlab_elt.Gitlab.Endpoints.{Http, Client, new_client, client}
use gitlab_elt.Scheduler.{Scheduler, Cron, new_cron, start}
use gitlab_elt.Scheduler as Scheduler
use gitlab_elt.Config.Types.{Config, dsn, Error}
use gitlab_elt.Config.Types as Loading
use gitlab_elt.Config.Variables.{Os}
use gitlab_elt.Config.Telemetry.{Floats}
use gitlab_elt.Config.Load.{load}
use gitlab_elt.Worker.{Worker, sync_func, discover_func}

-- What the worker finds outside: the operating system, the libraries, the GitLab server, the
-- database by its address, and the cron library's reading of a schedule.
pub record Outside : Type 0 where
  pub os : Os
  pub lib : TextLib
  pub codec : Codec
  pub http : Http
  pub env : Env
  pub connects : String → Bool
  pub pings : String → Bool
  pub accepts : String → Bool

-- Why the process ends with the code 1.
pub data Exit : Type 0 where
  bad_config : Error → Exit
  no_connection no_ping : Exit
  no_mappings : Err → Exit
  bad_schedule : Exit

pub data Started : Type 0 where
  exited : Exit → Db → Started
  running : Config → Worker → Cron → Db → Started

module _ (out : Outside) where
  -- The recorder of metrics is there in the worker.
  abbrev pub metered : Env
  metered = record out.env { has_metrics = true }

  -- The services, as `main` makes them.
  unfoldable pub worker : Config → Mapper → Worker
  worker cfg mapper =
      let gitlab_client = client out.http (
        new_client cfg.gitlab.base_url cfg.gitlab.token cfg.gitlab.rate_limit
          cfg.gitlab.retry_max) in
      record {
        extractor = record {
          env = metered;
          gitlab = gitlab_client;
          codec = out.codec;
          has_queries = true;
        };
        transformer = record {
          env = metered;
          lib = out.lib;
          codec = out.codec;
          mapper = mapper;
          batch_size = 500;
        };
        discovery = record {
          env = metered;
          gitlab = gitlab_client;
          codec = out.codec;
          has_queries = true;
          group_ids = cfg.gitlab.group_ids;
        };
      }

  unfoldable pub scheduler : Config → Worker → Scheduler
  scheduler cfg w = record {
    config = record {
      sync_peak = cfg.scheduler.sync_peak;
      sync_off_peak = cfg.scheduler.sync_off_peak;
      discovery = cfg.scheduler.discovery;
    };
    sync_func = sync_func w;
    discover_func = discover_func w;
  }

  abbrev pub with_cron : Config → Worker → Db → Bool × Cron → Started
  with_cron cfg w d (false, cron) = exited bad_schedule d
  with_cron cfg w d (true, cron) = running cfg w cron d

  abbrev pub with_mapper : Config → Result Mapper × Db → Started
  with_mapper cfg (err e, d) = exited (no_mappings e) d
  with_mapper cfg (ok mapper, d) =
      let w = worker cfg mapper in
      let monitored = projects_monitored (length cfg.gitlab.project_ids) in
      with_cron cfg w (record_metric metered monitored d).1
        (start out.accepts (scheduler cfg w) new_cron)

  abbrev pub with_config : Loading.Result Config → Db → Started
  with_config (Loading.err e) d = exited (bad_config e) d
  with_config (Loading.ok cfg) d =
      let address = dsn cfg.postgres in
      if not (out.connects address)
      then exited no_connection d
      else if not (out.pings address)
      then exited no_ping d
      else with_mapper cfg (load_from_db out.lib metered new d)

  unfoldable pub start_worker : Floats → Db → Started
  start_worker floats d = with_config (load out.os floats) d
