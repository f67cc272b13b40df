-- ===== src/Config/Load.antt =====
-- internal/config/config.go, `Load`.
pub mod Sources
pub mod Valid
use gitlab_elt.Common.{
  ℕ, String, Bool, true, false, ◌&&◌, List, [], ◌∷◌, ◌==◌, string_eq, if◌then◌else◌,
}
use gitlab_elt.Text.Integers.{atoi}
use gitlab_elt.Config.Types.{
  OtelMetricsConfig, OtelResourceConfig, OtelTracingConfig, Config, Error, no_source, Result, ok,
  err, ◌>>=◌, named,
}
use gitlab_elt.Config.Variables.{
  Os, integer, resolve_env_value, require_env_strict, require_env_int, env_or_default,
  env_or_default_int,
}
use gitlab_elt.Config.Lists.{parse_int_list}
use gitlab_elt.Config.Telemetry.{
  Floats, load_otel_metrics_config, load_otel_resource_config, load_otel_tracing_config,
}

-- `len(ids) == 0`
abbrev pub is_empty : List ℕ → Bool
is_empty [] = true
is_empty (id ∷ ids) = false

module _ (os : Os) where
  -- The optional lists of identifiers: none where the variable is empty.
  unfoldable pub ids_env : String → Result (List ℕ)
  ids_env key = do
    ids_str ← named key (resolve_env_value os key)
    if ids_str == "" then ok [] else named key (parse_int_list ids_str)

  abbrev pub check_sources : List ℕ → List ℕ → Result (Unit {0})
  check_sources project_ids group_ids =
      if is_empty project_ids && is_empty group_ids then err no_source else ok tt

  unfoldable pub health_port_env : Result ℕ
  health_port_env = do
    health_port_str ← named "HEALTH_PORT" (resolve_env_value os "HEALTH_PORT")
    if health_port_str == ""
        then ok 8080
        else named "HEALTH_PORT" (integer health_port_str (atoi health_port_str))

  unfoldable pub load : Floats → Result Config
  load floats = do
    pg_port ← require_env_int os "POSTGRES_PORT"
    project_ids ← ids_env "GITLAB_PROJECT_IDS"
    pg_host ← require_env_strict os "POSTGRES_HOST"
    pg_user ← require_env_strict os "POSTGRES_USER"
    pg_password ← require_env_strict os "POSTGRES_PASSWORD"
    pg_db ← require_env_strict os "POSTGRES_DB"
    gitlab_base_url ← require_env_strict os "GITLAB_BASE_URL"
    gitlab_token ← require_env_strict os "GITLAB_TOKEN"
    group_ids ← ids_env "GITLAB_GROUP_IDS"
    _ ← check_sources project_ids group_ids
    rate_limit ← named "GITLAB_RATE_LIMIT" (env_or_default_int os "GITLAB_RATE_LIMIT" 20)
    retry_max ← named "GITLAB_RETRY_MAX" (env_or_default_int os "GITLAB_RETRY_MAX" 3)
    health_port ← health_port_env
    metrics ← load_otel_metrics_config os
    resource ← load_otel_resource_config os
    tracing ← load_otel_tracing_config floats os
    ok (record {
      postgres = record {
        host = pg_host;
        port = pg_port;
        user = pg_user;
        password = pg_password;
        db = pg_db;
      };
      gitlab = record {
        base_url = gitlab_base_url;
        token = gitlab_token;
        project_ids = project_ids;
        group_ids = group_ids;
        rate_limit = rate_limit;
        retry_max = retry_max;
      };
      worker = record {
        health_port = health_port;
        otel = record { metrics = metrics; resource = resource; tracing = tracing };
      };
      scheduler = record {
        sync_peak = env_or_default os "SCHEDULER_SYNC_PEAK" "*/15 * * * *";
        sync_off_peak = env_or_default os "SCHEDULER_SYNC_OFFPEAK" "0 */4 * * *";
        discovery = env_or_default os "SCHEDULER_DISCOVERY" "0 */6 * * *";
      };
    })
