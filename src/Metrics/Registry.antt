-- ===== src/Metrics/Registry.antt =====
-- internal/metrics/metrics.go: the collectors of Prometheus, and the registry that records on them
-- and on the OTLP meter. What the client library of Prometheus does with them is a parameter.
use gitlab_elt.Common.{
  ℕ, ◌^◌, String, Bool, ◌||◌, Option, none, some, List, [], ◌∷◌, ◌==◌, nat_eq, string_eq,
  if◌then◌else◌, leb,
}
use gitlab_elt.Common.Int.{pos}
use gitlab_elt.Metrics.{
  Value, grown_by, observed, set_to, Step, ◌>=>◌, Exported, Call, record_sync_run,
  record_gitlab_request, record_raw_event_ingested, record_transform_result,
  record_last_successful_sync, set_projects_monitored, unix,
}
use gitlab_elt.Metrics.Meter.{OtlpMeter, meter_record}

pub data Collector : Type 0 where
  counter_vec histogram_vec gauge_vec : String → List String → Collector
  gauge : String → Collector

pub record Registry : Type 0 where
  pub sync_runs : Collector
  pub sync_duration : Collector
  pub gitlab_requests : Collector
  pub gitlab_request_latency : Collector
  pub raw_events_ingested : Collector
  pub transform_results : Collector
  pub last_success : Collector
  pub projects_monitored : Collector
  pub otel : Option OtlpMeter

abbrev pub name_of : Collector → String
name_of (counter_vec name labels) = name
name_of (histogram_vec name labels) = name
name_of (gauge_vec name labels) = name
name_of (gauge name) = name

-- What the client library of Prometheus does: whether the registerer takes these collectors, or
-- panics, and which series `WithLabelValues` gives for the labels of a vector and their values, or
-- that it panics.
pub record Prometheus : Type 0 where
  pub registers : List Collector → Bool
  pub with_label_values : List String → List String → Option (List (String × String))

abbrev pub collectors : Option OtlpMeter → Registry
collectors otel = record {
  sync_runs = counter_vec "gitlab_elt_sync_runs_total" ("stage" ∷ "status" ∷ []);
  sync_duration = histogram_vec "gitlab_elt_sync_duration_seconds" ("stage" ∷ []);
  gitlab_requests = counter_vec "gitlab_elt_gitlab_requests_total" ("endpoint" ∷ "status" ∷ []);
  gitlab_request_latency =
      histogram_vec "gitlab_elt_gitlab_request_duration_seconds" ("endpoint" ∷ []);
  raw_events_ingested =
      counter_vec "gitlab_elt_raw_events_ingested_total" ("project_id" ∷ "event_type" ∷ []);
  transform_results =
      counter_vec "gitlab_elt_transform_results_total"
        ("project_id" ∷ "event_type" ∷ "status" ∷ []);
  last_success =
      gauge_vec "gitlab_elt_last_successful_sync_timestamp" ("project_id" ∷ "stage" ∷ []);
  projects_monitored = gauge "gitlab_elt_projects_monitored";
  otel = otel;
}

abbrev pub listed : Registry → List Collector
listed r =
    r.sync_runs ∷ r.sync_duration ∷ r.gitlab_requests ∷ r.gitlab_request_latency
    ∷ r.raw_events_ingested ∷ r.transform_results ∷ r.last_success ∷ r.projects_monitored ∷ []

-- A Go `int` is at most 0 if it is 0 or has the sign bit.
abbrev pub not_positive : ℕ → Bool
not_positive count = count == 0 || leb (2 ^ 63) count

module _ (lib : Prometheus) where
  -- None stands for a panic.
  unfoldable pub new : Option OtlpMeter → Option Registry
  new otel = if lib.registers (listed (collectors otel)) then some (collectors otel) else none

  -- The series of a collector. A gauge without labels is one.
  abbrev pub series : Collector → List String → Option (List (String × String))
  series (gauge name) values = some []
  series (counter_vec name labels) values = lib.with_label_values labels values
  series (histogram_vec name labels) values = lib.with_label_values labels values
  series (gauge_vec name labels) values = lib.with_label_values labels values

  -- `Inc`, `Add`, `Observe` or `Set` on a series.
  abbrev pub on_series :
      String → Value → Exported → Option (List (String × String)) → Option Exported
  on_series name v x none = none
  on_series name v x (some labels) =
      some (record x {
        prometheus = record { name = name; labels = labels; value = v } ∷ x.prometheus;
      })

  unfoldable pub collect : Collector → List String → Value → Step
  collect c values v x = on_series (name_of c) v x (series c values)

  abbrev mirrored : Option OtlpMeter → Call → Step
  mirrored none call x = some x
  mirrored (some m) call x = some (meter_record m call x)

  unfoldable pub recorded : Registry → Call → Step
  recorded r (record_sync_run stage status duration) =
      collect r.sync_runs (stage ∷ status ∷ []) (grown_by 1)
      >=> collect r.sync_duration (stage ∷ []) (observed duration)
      >=> mirrored r.otel (record_sync_run stage status duration)
  recorded r (record_gitlab_request endpoint status duration) =
      collect r.gitlab_requests (endpoint ∷ status ∷ []) (grown_by 1)
      >=> collect r.gitlab_request_latency (endpoint ∷ []) (observed duration)
      >=> mirrored r.otel (record_gitlab_request endpoint status duration)
  recorded r (record_raw_event_ingested project_id event_type count) =
      if not_positive count
      then some
      else collect r.raw_events_ingested (project_id ∷ event_type ∷ []) (grown_by count)
        >=> mirrored r.otel (record_raw_event_ingested project_id event_type count)
  recorded r (record_transform_result project_id event_type status) =
      collect r.transform_results (project_id ∷ event_type ∷ status ∷ []) (grown_by 1)
      >=> mirrored r.otel (record_transform_result project_id event_type status)
  recorded r (record_last_successful_sync project_id stage ts) =
      collect r.last_success (project_id ∷ stage ∷ []) (set_to (unix ts))
      >=> mirrored r.otel (record_last_successful_sync project_id stage ts)
  recorded r (set_projects_monitored n) =
      collect r.projects_monitored [] (set_to (pos n))
      >=> mirrored r.otel (set_projects_monitored n)

  -- The method of the call, which does nothing without a registry.
  unfoldable pub record_call : Option Registry → Call → Step
  record_call none call x = some x
  record_call (some r) call x = recorded r call x

  -- The calls of a run, in order.
  unfoldable pub record_calls : Option Registry → List Call → Step
  record_calls r [] x = some x
  record_calls r (call ∷ calls) x = (record_call r call >=> record_calls r calls) x
