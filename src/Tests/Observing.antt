-- ===== src/Tests/Observing.antt =====
-- The tracing and the metrics on sample data: a worker that samples half of the traces, and one whose
-- library makes no gauge.
use gitlab_elt.Common.{
  String, Bool, true, false, none, some, List, [], ◌∷◌, ◌==◌, string_eq, if◌then◌else◌, lookup,
  insert, ◌≡◌, refl, map,
}
use gitlab_elt.Text.{trim_space, trim_left, trim_right, is_space}
use gitlab_elt.Text.Integers.{atoi, unsigned, digits_value}
use gitlab_elt.Text.Parts.{split, split_two, strip_prefix}
use gitlab_elt.Config.Types.{Config, OtelResourceConfig, ok}
use gitlab_elt.Config.Variables.{
  Os, resolve_env_value, require_env_strict, require_env_int, env_or_default, env_or_default_int,
}
use gitlab_elt.Config.Lists.{parse_entries, parse_int_list}
use gitlab_elt.Config.Telemetry.{
  parse_pairs, parse_otel_headers, headers_env, insecure_env, attributes_env,
  load_otel_metrics_config, load_otel_resource_config, load_otel_tracing_config,
  validate_otel_sampler, parse_bool,
}
use gitlab_elt.Config.Load.{ids_env, health_port_env, load}
use gitlab_elt.Telemetry.{
  build_tracer_provider, sampler_from_config, built, with_endpoint, with_headers, with_insecure,
  parent_based, trace_id_ratio_based,
}
use gitlab_elt.Telemetry.Accepted.{Starts, load-Starts}
use gitlab_elt.Metrics.{
  Exported, Call, record_sync_run, record_raw_event_ingested, set_projects_monitored,
}
use gitlab_elt.Metrics.Meter.{Kind, int64_counter, float64_histogram, float64_gauge}
use gitlab_elt.Metrics.Resource.{build_resource, build_resource-Reordered}
use gitlab_elt.Text.Order.{swapped}
use gitlab_elt.Metrics.Registry.{Registry, Prometheus, name_of, record_calls}
use gitlab_elt.Metrics.Catalog.{all_samples}
use gitlab_elt.Metrics.Documented.{IsDocumented, are_distinct, zip_labels}
use gitlab_elt.Metrics.Exporter.{build_otlp_meter}
use gitlab_elt.Metrics.Mirror.{received}
use gitlab_elt.Worker.Observed.{has_meter, observability, observability-records}
use gitlab_elt.Tests.Configuring.{os, floats, config}

abbrev os_traced : Os
os_traced = record os {
  getenv = λ key.
      if key == "OTEL_TRACES_ENDPOINT"
      then "collector:4318"
      else if key == "OTEL_TRACES_SAMPLER"
      then "traceidratio: 0.5"
      else if key == "OTEL_TRACES_INSECURE"
      then "true"
      else os.getenv key;
}

abbrev config_traced : Config
config_traced = record config {
  worker = record config.worker {
    otel = record config.worker.otel {
      tracing = record {
        endpoint = "collector:4318";
        headers = ("a", "c=d") ∷ [];
        insecure = true;
        sampler = "traceidratio: 0.5";
      };
    };
  };
}

traced : load os_traced floats ≡ ok config_traced
unfolding load ids_env health_port_env resolve_env_value require_env_strict require_env_int
    env_or_default env_or_default_int parse_int_list parse_entries atoi unsigned digits_value split
    split_two strip_prefix trim_space trim_left trim_right is_space lookup insert parse_pairs
    parse_otel_headers headers_env insecure_env attributes_env load_otel_metrics_config
    load_otel_resource_config load_otel_tracing_config validate_otel_sampler parse_bool
traced = refl

load-Starts_example : Starts floats (λ opts. true) config_traced.worker.otel.tracing none
load-Starts_example = load-Starts floats os_traced config_traced (λ opts. true) none traced

half_sampled :
    build_tracer_provider floats (λ opts. true) config_traced.worker.otel.tracing none
    ≡ built (record {
      options =
          with_endpoint "collector:4318" ∷ with_headers (("a", "c=d") ∷ []) ∷ with_insecure ∷ [];
      sampler = parent_based (trace_id_ratio_based 1);
      resource = none;
    })
unfolding build_tracer_provider sampler_from_config strip_prefix trim_space trim_left trim_right
    is_space
half_sampled = refl

abbrev config_metered : Config
config_metered = record config {
  worker = record config.worker {
    otel = record config.worker.otel {
      metrics = record { endpoint = "collector:4318"; headers = []; insecure = false };
    };
  };
}

abbrev no_gauge : Kind → String → Bool
no_gauge int64_counter name = true
no_gauge float64_histogram name = true
no_gauge float64_gauge name = false

abbrev calls : List Call
calls =
    set_projects_monitored 2
    ∷ record_sync_run "extract" "success" 5_000
    ∷ record_raw_event_ingested "3" "note" 0
    ∷ []

abbrev empty : Exported
empty = record { prometheus = []; otlp = [] }

abbrev prometheus : Prometheus
prometheus = record {
  registers = λ cs. are_distinct (map name_of cs);
  with_label_values = zip_labels;
}

prometheus-IsDocumented : IsDocumented prometheus
prometheus-IsDocumented = record {
  takes_distinct = λ cs distinct. distinct;
  pairs_labels = λ ls vs paired. paired;
}

observability-records_example :
    (r : Registry) × (observability prometheus (λ opts. true) (some no_gauge) config_metered
      ≡ some r)
    × (record_calls prometheus (some r) calls empty
        ≡ some (
            received
              (has_meter (
                build_otlp_meter (λ opts. true) (some no_gauge) config_metered.worker.otel.metrics))
              (all_samples calls)
              empty))
observability-records_example =
    observability-records (λ opts. true) (some no_gauge) prometheus config_metered calls empty
      prometheus-IsDocumented

abbrev tagged : OtelResourceConfig
tagged = record config.worker.otel.resource {
  attributes = ("team", "data") ∷ ("region", "eu") ∷ [];
}

build_resource-Reordered_example :
    build_resource (some "worker-1") tagged (λ attributes. "team" ∷ "region" ∷ [])
    ≡ build_resource (some "worker-1") tagged (λ attributes. "region" ∷ "team" ∷ [])
build_resource-Reordered_example =
    build_resource-Reordered (some "worker-1") tagged (λ attributes. "team" ∷ "region" ∷ [])
      (λ attributes. "region" ∷ "team" ∷ []) (swapped "team" "region" [])
