-- ===== src/Worker/Startup/Ready.antt =====
-- What a worker is that has started, and what its jobs do over time (cmd/worker/main.go).
use gitlab_elt.Common.{
  List, String, Bool, true, false, none, length, Bool-cases, inl, inr, ◌≡◌, refl, sym, ap, ap₂,
  subst, ◌∙◌, arith,
}
use gitlab_elt.Repository.{Db, Result, ok, err, projects_monitored, record_metric, statement}
use gitlab_elt.Repository.Silent.{SameSilver, same_tables-SameSilver}
use gitlab_elt.Repository.Mappings.{list_state_mappings, list_metadata_mappings}
use gitlab_elt.Mapper.{Mapper, new, load_from_db, map_label, normalize_label}
use gitlab_elt.Mapper.Laws.{classify, last_state, last_key, load_from_db-classify}
use gitlab_elt.Scheduler.{Scheduler, Job, Cron, new_cron, start as start_cron}
use gitlab_elt.Scheduler.Started.{jobs, start-eq}
use gitlab_elt.Config.Types.{Config, dsn}
use gitlab_elt.Config.Types as Loading
use gitlab_elt.Config.Telemetry.{Floats}
use gitlab_elt.Config.Load.{load}
use gitlab_elt.Config.Load.Valid.{IsValid, load-IsValid}
use gitlab_elt.Worker.{Worker, sync_func, discover_func}
use gitlab_elt.Gitlab.{GitlabClient}
use gitlab_elt.Gitlab.Endpoints.{new_client, client}
use gitlab_elt.Worker.Startup.{
  Outside, running, metered, worker, scheduler, with_cron, with_mapper, with_config, start_worker,
}

-- No table of projects, raw events, issues, events or comments has changed.
pub record Untouched (d e : Db) : Type 0 where
  pub raw_projects : e.raw_projects ≡ d.raw_projects
  pub raw_events : e.raw_events ≡ d.raw_events
  pub projects : e.projects ≡ d.projects
  pub issues : e.issues ≡ d.issues
  pub issue_events : e.issue_events ≡ d.issue_events
  pub issue_comments : e.issue_comments ≡ d.issue_comments

module _ (out : Outside) (floats : Floats) where
  -- The client of the configured server, with the configured token, rate and retries.
  abbrev pub configured_client : Config → GitlabClient
  configured_client cfg = client out.http (record {
    base_url = cfg.gitlab.base_url;
    token = cfg.gitlab.token;
    rate_limit = cfg.gitlab.rate_limit;
    max_retries = cfg.gitlab.retry_max;
  })

  -- The services of the configured groups, with that client, the mapper and the metrics.
  abbrev pub configured : Config → Mapper → Worker
  configured cfg mapper = record {
    extractor = record {
      env = record out.env { has_metrics = true };
      gitlab = configured_client cfg;
      codec = out.codec;
      has_queries = true;
    };
    transformer = record {
      env = record out.env { has_metrics = true };
      lib = out.lib;
      codec = out.codec;
      mapper = mapper;
      batch_size = 500;
    };
    discovery = record {
      env = record out.env { has_metrics = true };
      gitlab = configured_client cfg;
      codec = out.codec;
      has_queries = true;
      group_ids = cfg.gitlab.group_ids;
    };
  }

  -- The three jobs, each by its configured schedule, of the worker's two functions.
  abbrev pub configured_jobs : Config → Worker → List (String × Job)
  configured_jobs cfg w = jobs (record {
    config = record {
      sync_peak = cfg.scheduler.sync_peak;
      sync_off_peak = cfg.scheduler.sync_off_peak;
      discovery = cfg.scheduler.discovery;
    };
    sync_func = sync_func w;
    discover_func = discover_func w;
  })

  -- A worker that runs: by a valid configuration, with a mapper of the two tables, and with the three
  -- jobs in a cron that runs; no table has changed.
  pub record IsReady (d : Db) (cfg : Config) (w : Worker) (cron : Cron) (e : Db) : Type 0 where
    pub loaded : load out.os floats ≡ Loading.ok cfg
    pub valid : IsValid floats cfg
    pub reachable : (out.connects (dsn cfg.postgres) ≡ true) × (out.pings (dsn cfg.postgres) ≡ true)
    pub wired : w ≡ configured cfg w.transformer.mapper
    pub labels :
        (label : String)
        → map_label out.lib w.transformer.mapper label
          ≡ classify out.lib
              (last_state out.lib (normalize_label out.lib label) d.state_mappings none)
              (last_key out.lib (normalize_label out.lib label) d.metadata_mappings none)
    pub scheduled : cron ≡ record { entries = configured_jobs cfg w; running = true }
    pub silver : SameSilver d e
    pub untouched : Untouched d e

  module _ (d : Db) (cfg : Config) (w : Worker) (cron : Cron) (e : Db) where
    cron_parts :
        (cfg' : Config) (w' : Worker) (d' : Db) (r : Bool × Cron)
        → with_cron out cfg' w' d' r ≡ running cfg w cron e
        → (cfg' ≡ cfg) × (w' ≡ w) × (r ≡ (true, cron)) × (d' ≡ e)
    cron_parts cfg' w' d' (false, c) h = cc
    cron_parts cfg' w' d' (true, c) h = (cc, cc, cc, cc)

    -- What the loading of the mapper gave, and what came of it.
    abbrev Mapped : Config → Result Mapper × Db → Type 0
    Mapped cfg' r =
        (mapper : Mapper) × (after : Db) × (r ≡ (ok mapper, after))
        × (cfg' ≡ cfg)
        × (worker out cfg' mapper ≡ w)
        × (start_cron out.accepts (scheduler out cfg' (worker out cfg' mapper)) new_cron
            ≡ (true, cron))
        × ((record_metric (metered out) (projects_monitored (length cfg'.gitlab.project_ids))
              after).1
            ≡ e)

    mapper_parts :
        (cfg' : Config) (r : Result Mapper × Db)
        → with_mapper out cfg' r ≡ running cfg w cron e
        → Mapped cfg' r
    mapper_parts cfg' (err x, after) h = cc
    mapper_parts cfg' (ok mapper, after) h =
        let (same_config, same_worker, started, same_db) =
          cron_parts cfg' (worker out cfg' mapper) _ _ h in
        (mapper, after, refl, same_config, same_worker, started, same_db)

    config_parts :
        (r : Loading.Result Config)
        → with_config out r d ≡ running cfg w cron e
        → (cfg' : Config) × (r ≡ Loading.ok cfg')
          × (out.connects (dsn cfg'.postgres) ≡ true)
          × (out.pings (dsn cfg'.postgres) ≡ true)
          × Mapped cfg' (load_from_db out.lib (metered out) new d)
    config_parts (Loading.err x) h = cc
    config_parts (Loading.ok cfg') h = elim (Bool-cases (out.connects (dsn cfg'.postgres))) [
      | inr closed ↦ absurd (ground arith)
      | inl connected ↦ elim (Bool-cases (out.pings (dsn cfg'.postgres))) [
        | inr silent ↦ absurd (ground arith)
        | inl pinged ↦ (
          cfg',
          refl,
          connected,
          pinged,
          mapper_parts cfg' (load_from_db out.lib (metered out) new d) (ground arith),
        )
      ]
    ]

    load_from_db-SameSilver : SameSilver d (load_from_db out.lib (metered out) new d).1
    unfolding load_from_db list_state_mappings list_metadata_mappings statement
    load_from_db-SameSilver =
        same_tables-SameSilver d _ (ground arith, ground arith, ground arith, ground arith)

    load_from_db-Untouched : Untouched d (load_from_db out.lib (metered out) new d).1
    unfolding load_from_db list_state_mappings list_metadata_mappings statement
    load_from_db-Untouched = ground arith

  record_metric-Untouched :
      (d after : Db) (cfg : Config)
      → Untouched d after
      → Untouched d
          (record_metric (metered out) (projects_monitored (length cfg.gitlab.project_ids)) after).1
  unfolding record_metric
  record_metric-Untouched d after cfg h = ground arith

  record_metric-SameSilver :
      (d after : Db) (cfg : Config)
      → SameSilver d after
      → SameSilver d
          (record_metric (metered out) (projects_monitored (length cfg.gitlab.project_ids)) after).1
  unfolding record_metric
  record_metric-SameSilver d after cfg s =
      same_tables-SameSilver d _ (s.issues, s.issue_events, s.issue_comments, s.unknown_labels)

  pub start_worker-IsReady :
      (d : Db) (cfg : Config) (w : Worker) (cron : Cron) (e : Db)
      → start_worker out floats d ≡ running cfg w cron e
      → IsReady d cfg w cron e
  unfolding start_worker worker new_client scheduler
  start_worker-IsReady d cfg w cron e h =
      let (cfg', read, connected, pinged, rest) =
        config_parts d cfg w cron e (load out.os floats) h in
      let (mapper, after, mapped, same, wired, started, same_db) = rest in
      let loaded : load out.os floats ≡ Loading.ok cfg = read ∙ ap Loading.ok same in
      let its_mapper : mapper ≡ w.transformer.mapper =
        ap (λ (v : Worker). v.transformer.mapper) wired in
      let silver : SameSilver d after =
        subst (λ (r : Result Mapper × Db). SameSilver d r.1) mapped
          (load_from_db-SameSilver d cfg w cron e) in
      let untouched : Untouched d after =
        subst (λ (r : Result Mapper × Db). Untouched d r.1) mapped
          (load_from_db-Untouched d cfg w cron e) in
      record {
        loaded = loaded;
        valid = load-IsValid out.os floats cfg loaded;
        reachable = (
          subst (λ (c : Config). out.connects (dsn c.postgres) ≡ true) same connected,
          subst (λ (c : Config). out.pings (dsn c.postgres) ≡ true) same pinged,
        );
        wired = sym wired ∙ ap₂ (worker out) same its_mapper;
        labels = λ label. rw (← its_mapper) (
            load_from_db-classify out.lib (metered out) new d label
              (ap (λ (r : Result Mapper × Db). r.0) mapped));
        scheduled = start-eq out.accepts (scheduler out cfg w) cron (
            subst (λ (s : Scheduler). start_cron out.accepts s new_cron ≡ (true, cron))
              (ap₂ (scheduler out) same wired) started);
        silver = subst (SameSilver d) same_db (record_metric-SameSilver d after cfg' silver);
        untouched = subst (Untouched d) same_db (record_metric-Untouched d after cfg' untouched);
      }
