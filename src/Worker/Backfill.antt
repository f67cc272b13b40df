-- ===== src/Worker/Backfill.antt =====
-- cmd/backfill/main.go: the process of one backfill, with its exits. It has no recorder of metrics.
use gitlab_elt.Common.{ℕ, ◌^◌, ◌≤◌, ◌<◌, ◌≡◌, true, false, not, ◌&&◌, ltb, if◌then◌else◌, ◌⊎◌}
use gitlab_elt.Repository.{Db, Env, Err, Result, ok, err}
use gitlab_elt.Repository.Keys.{IsConsistent}
use gitlab_elt.Repository.Silent.{SameSilver}
use gitlab_elt.Mapper.{Mapper, new, load_from_db}
use gitlab_elt.Gitlab.Endpoints.{Client, new_client, client}
use gitlab_elt.Config.Types.{Config, dsn}
use gitlab_elt.Config.Types as Loading
use gitlab_elt.Config.Telemetry.{Floats}
use gitlab_elt.Config.Load.{load}
use gitlab_elt.Transformer.Frame.Rows.{KeepsRows}
use gitlab_elt.Worker.{Worker, backfill}
use gitlab_elt.Worker.Startup.{Outside, Exit, bad_config, no_connection, no_ping, no_mappings}

-- The end of the process: before its first step or for an error of a step, with the code 1, or with
-- the rate that the last message names.
pub data Ended : Type 0 where
  aborted : Exit → Db → Ended
  failed : Err → Db → Ended
  completed : ℕ → Db → Ended

-- `rateLimit > 15` is a test of signed integers.
unfoldable pub capped_rate : ℕ → ℕ
capped_rate rate_limit = if ltb 15 rate_limit && ltb rate_limit (2 ^ 63) then 15 else rate_limit

abbrev pub ended : ℕ → Result (Unit {0}) × Db → Ended
ended rate (ok done, d) = completed rate d
ended rate (err e, d) = failed e d

module _ (out : Outside) where
  -- No recorder is given to the services.
  abbrev pub unmetered : Env
  unmetered = record out.env { has_metrics = false }

  unfoldable pub services : Config → Mapper → Worker
  services cfg mapper =
      let gitlab_client = client out.http (
        new_client cfg.gitlab.base_url cfg.gitlab.token (capped_rate cfg.gitlab.rate_limit)
          cfg.gitlab.retry_max) in
      record {
        extractor = record {
          env = unmetered;
          gitlab = gitlab_client;
          codec = out.codec;
          has_queries = true;
        };
        transformer = record {
          env = unmetered;
          lib = out.lib;
          codec = out.codec;
          mapper = mapper;
          batch_size = 500;
        };
        discovery = record {
          env = unmetered;
          gitlab = gitlab_client;
          codec = out.codec;
          has_queries = true;
          group_ids = cfg.gitlab.group_ids;
        };
      }

  abbrev pub with_mappings : Config → Result Mapper × Db → Ended
  with_mappings cfg (err e, d) = aborted (no_mappings e) d
  with_mappings cfg (ok mapper, d) =
      ended (capped_rate cfg.gitlab.rate_limit) (backfill (services cfg mapper) d)

  abbrev pub with_configuration : Loading.Result Config → Db → Ended
  with_configuration (Loading.err e) d = aborted (bad_config e) d
  with_configuration (Loading.ok cfg) d =
      let address = dsn cfg.postgres in
      if not (out.connects address)
      then aborted no_connection d
      else if not (out.pings address)
      then aborted no_ping d
      else with_mappings cfg (load_from_db out.lib unmetered new d)

  unfoldable pub start_backfill : Floats → Db → Ended
  start_backfill floats d = with_configuration (load out.os floats) d

-- The unique keys hold, and the rows are still there.
abbrev pub Kept : Db → Db → Type 0
Kept d e = IsConsistent e × KeepsRows d e

-- The rate for a configured one: 15 requests a second for a higher one, and else that one, which may
-- be negative.
pub data Capped (limit rate : ℕ) : Type 0 where
  lowered : 15 < limit → limit < 2 ^ 63 → rate ≡ 15 → Capped limit rate
  taken : (limit ≤ 15) ⊎ (2 ^ 63 ≤ limit) → rate ≡ limit → Capped limit rate

-- The steps ran without an error, on Silver tables that were as at first, by services whose client has
-- the configured base, token and retries, and the rate.
pub record Ran (out : Outside) (floats : Floats) (d : Db) (rate : ℕ) (e : Db) : Type 0 where
  pub cfg : Config
  pub loaded : load out.os floats ≡ Loading.ok cfg
  pub capped : Capped cfg.gitlab.rate_limit rate
  pub gitlab : Client
  pub its_client : gitlab ≡ record {
    base_url = cfg.gitlab.base_url;
    token = cfg.gitlab.token;
    rate_limit = rate;
    max_retries = cfg.gitlab.retry_max;
  }
  pub w : Worker
  pub discovers : w.discovery.gitlab ≡ client out.http gitlab
  pub groups : w.discovery.group_ids ≡ cfg.gitlab.group_ids
  pub extracts : w.extractor.gitlab ≡ client out.http gitlab
  pub start : Db
  pub silver : SameSilver d start
  pub steps : backfill w start ≡ (ok tt, e)

-- What the process leaves behind, by the way that it ended.
abbrev pub Leaves : Outside → Floats → Db → Ended → Type 0
Leaves out floats d (aborted x e) = SameSilver d e
Leaves out floats d (failed x e) = Kept d e
Leaves out floats d (completed rate e) = Kept d e × Ran out floats d rate e
