-- ===== src/Config/Load/Sources.antt =====
-- Where the fields of a loaded configuration come from (internal/config/config.go).
use gitlab_elt.Common.{
  ℕ, String, List, [], Bool-cases, ◌==◌, string_eq, eq_iff, ◌≡◌, ◌⊎◌, inl, inr, ap, ◌∙◌, subst,
  arith,
}
use gitlab_elt.Config.Types.{Config, ok, named, >>=-ok, named-ok}
use gitlab_elt.Config.Variables.{
  Os, resolve_env_value, require_env_strict, require_env_int, env_or_default, env_or_default_int,
}
use gitlab_elt.Config.Variables.Laws.{
  Provides, Requires, RequiresInt, OptionalInt, OptionalText, resolve_env_value-Provides,
  require_env_strict-Requires, require_env_int-RequiresInt, optional_int,
  env_or_default_int-OptionalInt, env_or_default-OptionalText,
}
use gitlab_elt.Config.Lists.{parse_int_list}
use gitlab_elt.Config.Telemetry.{
  Floats, load_otel_metrics_config, load_otel_resource_config, load_otel_tracing_config,
}
use gitlab_elt.Config.Load.{ids_env, check_sources, health_port_env, load}

module _ (os : Os) where
  -- An optional list of identifiers: none where there is no value.
  abbrev pub OptionalIds : String → List ℕ → Type 0
  OptionalIds key ids =
      (Provides os key "" × (ids ≡ []))
      ⊎ ((v : String) × Requires os key v × (parse_int_list v ≡ ok ids))

  ids_env-OptionalIds :
      (key : String) (ids : List ℕ) → ids_env os key ≡ ok ids → OptionalIds key ids
  unfolding ids_env
  ids_env-OptionalIds key ids h =
      let (val, taken, rest) = >>=-ok (named key (resolve_env_value os key)) _ h in
      let resolved : resolve_env_value os key ≡ ok val =
        named-ok key (resolve_env_value os key) taken in
      elim (Bool-cases (val == "")) [
        | inl empty ↦ inl (
          resolve_env_value-Provides os key "" (resolved ∙ ap ok ((eq_iff _ _).0 empty)),
          ground arith,
        )
        | inr given ↦ inr (
          val,
          (resolve_env_value-Provides os key val resolved, ground (arith, eq_iff val "")),
          named-ok key (parse_int_list val) (ground arith),
        )
      ]

  health_port_env-OptionalInt :
      (n : ℕ) → health_port_env os ≡ ok n → OptionalInt os "HEALTH_PORT" 8080 n
  unfolding health_port_env
  health_port_env-OptionalInt n h =
      let (val, taken, rest) =
        >>=-ok (named "HEALTH_PORT" (resolve_env_value os "HEALTH_PORT")) _ h in
      optional_int os "HEALTH_PORT" 8080 n val
        (named-ok "HEALTH_PORT" (resolve_env_value os "HEALTH_PORT") taken) (ground arith)

-- Each part of a loaded configuration was read without an error.
module _ (os : Os) (floats : Floats) where
  pub record Parts (c : Config) : Type 0 where
    pub port : require_env_int os "POSTGRES_PORT" ≡ ok c.postgres.port
    pub project_ids : ids_env os "GITLAB_PROJECT_IDS" ≡ ok c.gitlab.project_ids
    pub host : require_env_strict os "POSTGRES_HOST" ≡ ok c.postgres.host
    pub user : require_env_strict os "POSTGRES_USER" ≡ ok c.postgres.user
    pub password : require_env_strict os "POSTGRES_PASSWORD" ≡ ok c.postgres.password
    pub db : require_env_strict os "POSTGRES_DB" ≡ ok c.postgres.db
    pub base_url : require_env_strict os "GITLAB_BASE_URL" ≡ ok c.gitlab.base_url
    pub token : require_env_strict os "GITLAB_TOKEN" ≡ ok c.gitlab.token
    pub group_ids : ids_env os "GITLAB_GROUP_IDS" ≡ ok c.gitlab.group_ids
    pub sources : check_sources os c.gitlab.project_ids c.gitlab.group_ids ≡ ok tt
    pub rate_limit :
        named "GITLAB_RATE_LIMIT" (env_or_default_int os "GITLAB_RATE_LIMIT" 20)
        ≡ ok c.gitlab.rate_limit
    pub retry_max :
        named "GITLAB_RETRY_MAX" (env_or_default_int os "GITLAB_RETRY_MAX" 3)
        ≡ ok c.gitlab.retry_max
    pub health_port : health_port_env os ≡ ok c.worker.health_port
    pub metrics : load_otel_metrics_config os ≡ ok c.worker.otel.metrics
    pub resource : load_otel_resource_config os ≡ ok c.worker.otel.resource
    pub tracing : load_otel_tracing_config floats os ≡ ok c.worker.otel.tracing
    pub sync_peak : env_or_default os "SCHEDULER_SYNC_PEAK" "*/15 * * * *" ≡ c.scheduler.sync_peak
    pub sync_off_peak :
        env_or_default os "SCHEDULER_SYNC_OFFPEAK" "0 */4 * * *" ≡ c.scheduler.sync_off_peak
    pub discovery : env_or_default os "SCHEDULER_DISCOVERY" "0 */6 * * *" ≡ c.scheduler.discovery

  pub load-Parts : (c : Config) → load os floats ≡ ok c → Parts c
  unfolding load
  load-Parts c h = ground arith

-- What the variables and files say about each field of a configuration.
pub record IsRead (os : Os) (c : Config) : Type 0 where
  pub host : Requires os "POSTGRES_HOST" c.postgres.host
  pub port : RequiresInt os "POSTGRES_PORT" c.postgres.port
  pub user : Requires os "POSTGRES_USER" c.postgres.user
  pub password : Requires os "POSTGRES_PASSWORD" c.postgres.password
  pub db : Requires os "POSTGRES_DB" c.postgres.db
  pub base_url : Requires os "GITLAB_BASE_URL" c.gitlab.base_url
  pub token : Requires os "GITLAB_TOKEN" c.gitlab.token
  pub project_ids : OptionalIds os "GITLAB_PROJECT_IDS" c.gitlab.project_ids
  pub group_ids : OptionalIds os "GITLAB_GROUP_IDS" c.gitlab.group_ids
  pub rate_limit : OptionalInt os "GITLAB_RATE_LIMIT" 20 c.gitlab.rate_limit
  pub retry_max : OptionalInt os "GITLAB_RETRY_MAX" 3 c.gitlab.retry_max
  pub health_port : OptionalInt os "HEALTH_PORT" 8080 c.worker.health_port
  pub sync_peak : OptionalText os "SCHEDULER_SYNC_PEAK" "*/15 * * * *" c.scheduler.sync_peak
  pub sync_off_peak :
      OptionalText os "SCHEDULER_SYNC_OFFPEAK" "0 */4 * * *" c.scheduler.sync_off_peak
  pub discovery : OptionalText os "SCHEDULER_DISCOVERY" "0 */6 * * *" c.scheduler.discovery

-- A loaded configuration holds what the variables, or else the files that they name, say: the
-- required fields a value that is not empty, the optional lists and numbers such a value or their
-- default, and the schedules also their default where the file of a schedule cannot be read. A number
-- is what `strconv.Atoi` reads of the value, and a list what `parse_int_list` reads of it.
pub load-IsRead : (os : Os) (floats : Floats) (c : Config) → load os floats ≡ ok c → IsRead os c
load-IsRead os floats c h =
    let p = load-Parts os floats c h in
    record {
      host = require_env_strict-Requires os "POSTGRES_HOST" _ p.host;
      port = require_env_int-RequiresInt os "POSTGRES_PORT" _ p.port;
      user = require_env_strict-Requires os "POSTGRES_USER" _ p.user;
      password = require_env_strict-Requires os "POSTGRES_PASSWORD" _ p.password;
      db = require_env_strict-Requires os "POSTGRES_DB" _ p.db;
      base_url = require_env_strict-Requires os "GITLAB_BASE_URL" _ p.base_url;
      token = require_env_strict-Requires os "GITLAB_TOKEN" _ p.token;
      project_ids = ids_env-OptionalIds os "GITLAB_PROJECT_IDS" _ p.project_ids;
      group_ids = ids_env-OptionalIds os "GITLAB_GROUP_IDS" _ p.group_ids;
      rate_limit =
          env_or_default_int-OptionalInt os "GITLAB_RATE_LIMIT" 20 _ (named-ok _ _ p.rate_limit);
      retry_max =
          env_or_default_int-OptionalInt os "GITLAB_RETRY_MAX" 3 _ (named-ok _ _ p.retry_max);
      health_port = health_port_env-OptionalInt os _ p.health_port;
      sync_peak =
          subst (OptionalText os "SCHEDULER_SYNC_PEAK" "*/15 * * * *") p.sync_peak
            (env_or_default-OptionalText os "SCHEDULER_SYNC_PEAK" "*/15 * * * *");
      sync_off_peak =
          subst (OptionalText os "SCHEDULER_SYNC_OFFPEAK" "0 */4 * * *") p.sync_off_peak
            (env_or_default-OptionalText os "SCHEDULER_SYNC_OFFPEAK" "0 */4 * * *");
      discovery =
          subst (OptionalText os "SCHEDULER_DISCOVERY" "0 */6 * * *") p.discovery
            (env_or_default-OptionalText os "SCHEDULER_DISCOVERY" "0 */6 * * *");
    }
