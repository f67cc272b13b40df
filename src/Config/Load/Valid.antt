-- ===== src/Config/Load/Valid.antt =====
-- Which configurations are loaded (internal/config/config.go).
use gitlab_elt.Common.{
  ℕ, List, [], ◌∷◌, ◌++◌, ◌≡◌, ◌≢◌, inl, inr, Bool-cases, ◌==◌, string_eq, arith,
}
use gitlab_elt.Config.Types.{
  OtelMetricsConfig, OtelResourceConfig, OtelTracingConfig, Config, ok, >>=-ok,
}
use gitlab_elt.Config.Variables.{Os}
use gitlab_elt.Config.Variables.Laws.{require_env_strict-Requires}
use gitlab_elt.Config.Telemetry.{
  Floats, trimmed_env, attributes_env, load_otel_metrics_config, load_otel_resource_config,
  load_otel_tracing_config,
}
use gitlab_elt.Config.Telemetry.Headers.{
  HasKey, HasBoth, AllEntries, nil_entries, headers_env-AllEntries, attributes_env-AllEntries,
}
use gitlab_elt.Config.Telemetry.Sampler.{IsSampler, validate_otel_sampler-IsSampler}
use gitlab_elt.Config.Load.{check_sources, load}
use gitlab_elt.Config.Load.Sources.{load-Parts}

-- What the rest of the worker may take for granted of its configuration.
pub record IsValid (floats : Floats) (c : Config) : Type 0 where
  pub has_host : c.postgres.host ≢ ""
  pub has_user : c.postgres.user ≢ ""
  pub has_password : c.postgres.password ≢ ""
  pub has_db : c.postgres.db ≢ ""
  pub has_base_url : c.gitlab.base_url ≢ ""
  pub has_token : c.gitlab.token ≢ ""
  pub has_source : c.gitlab.project_ids ++ c.gitlab.group_ids ≢ []
  pub sampler_known : IsSampler floats c.worker.otel.tracing.sampler
  pub metrics_headers : AllEntries HasKey c.worker.otel.metrics.headers
  pub tracing_headers : AllEntries HasKey c.worker.otel.tracing.headers
  pub resource_attributes : AllEntries HasBoth c.worker.otel.resource.attributes

module _ (os : Os) where
  metrics-HasKeys :
      (c : OtelMetricsConfig) → load_otel_metrics_config os ≡ ok c → AllEntries HasKey c.headers
  unfolding load_otel_metrics_config
  metrics-HasKeys c h = elim (Bool-cases (trimmed_env os "OTEL_METRICS_ENDPOINT" == "")) [
    | inl off ↦ nil_entries HasKey c.headers (ground arith)
    | inr on ↦ headers_env-AllEntries os "OTEL_METRICS_HEADERS" c.headers (ground arith)
  ]

  resource-HasBoth :
      (c : OtelResourceConfig)
      → load_otel_resource_config os ≡ ok c
      → AllEntries HasBoth c.attributes
  unfolding load_otel_resource_config
  resource-HasBoth c h =
      let (attributes, read, rest) = >>=-ok (attributes_env os) _ h in
      attributes_env-AllEntries os c.attributes (ground arith)

  sources_given : (ps gs : List ℕ) → check_sources os ps gs ≡ ok tt → ps ++ gs ≢ []
  sources_given [] [] h = cc
  sources_given [] (g ∷ gs) h = cc
  sources_given (p ∷ ps) gs h = cc

  module _ (floats : Floats) where
    tracing-HasKeys :
        (c : OtelTracingConfig)
        → load_otel_tracing_config floats os ≡ ok c
        → AllEntries HasKey c.headers × IsSampler floats c.sampler
    unfolding load_otel_tracing_config
    tracing-HasKeys c h = (
      headers_env-AllEntries os "OTEL_TRACES_HEADERS" c.headers (ground arith),
      validate_otel_sampler-IsSampler floats c.sampler (ground arith),
    )

-- A loaded configuration has every required text, at least one project or group, a sampler that is
-- known, headers whose keys are not empty, and resource attributes whose keys and values are not
-- empty, whatever the environment holds.
pub load-IsValid :
    (os : Os) (floats : Floats) (c : Config) → load os floats ≡ ok c → IsValid floats c
load-IsValid os floats c h =
    let p = load-Parts os floats c h in
    let (tracing_headers, sampler) = tracing-HasKeys os floats c.worker.otel.tracing p.tracing in
    record {
      has_host = (require_env_strict-Requires os "POSTGRES_HOST" _ p.host).1;
      has_user = (require_env_strict-Requires os "POSTGRES_USER" _ p.user).1;
      has_password = (require_env_strict-Requires os "POSTGRES_PASSWORD" _ p.password).1;
      has_db = (require_env_strict-Requires os "POSTGRES_DB" _ p.db).1;
      has_base_url = (require_env_strict-Requires os "GITLAB_BASE_URL" _ p.base_url).1;
      has_token = (require_env_strict-Requires os "GITLAB_TOKEN" _ p.token).1;
      has_source = sources_given os c.gitlab.project_ids c.gitlab.group_ids p.sources;
      sampler_known = sampler;
      metrics_headers = metrics-HasKeys os c.worker.otel.metrics p.metrics;
      tracing_headers = tracing_headers;
      resource_attributes = resource-HasBoth os c.worker.otel.resource p.resource;
    }
