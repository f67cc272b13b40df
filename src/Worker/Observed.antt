-- ===== src/Worker/Observed.antt =====
-- cmd/worker/main.go: the registry of metrics of the worker. An error of the OTLP meter is logged and
-- passed over.
use gitlab_elt.Common.{
  String, Bool, true, false, Option, none, some, List, ◌≡◌, ap, ◌∙◌, string_eq, arith,
}
use gitlab_elt.Config.Types.{Config, OtelMetricsConfig}
use gitlab_elt.Telemetry.{ExporterOption}
use gitlab_elt.Metrics.{Call, Exported}
use gitlab_elt.Metrics.Meter.{
  Kind, OtlpMeter, MeterResult, made, not_made, new_instruments, new_otlp_meter,
}
use gitlab_elt.Metrics.Registry.{Registry, Prometheus, collectors, new, record_calls}
use gitlab_elt.Metrics.Exporter.{build_otlp_meter}
use gitlab_elt.Metrics.Catalog.{all_samples}
use gitlab_elt.Metrics.Documented.{IsDocumented}
use gitlab_elt.Metrics.Mirror.{meter_of, received, record_calls-received, new-collectors}

abbrev meter_or_nil : MeterResult (Option OtlpMeter) → Option OtlpMeter
meter_or_nil (made m) = m
meter_or_nil (not_made e) = none

abbrev pub has_meter : MeterResult (Option OtlpMeter) → Bool
has_meter (made (some m)) = true
has_meter (made none) = false
has_meter (not_made e) = false

-- None stands for a panic of the registration.
unfoldable pub observability :
    Prometheus
    → (List ExporterOption → Bool)
    → Option (Kind → String → Bool)
    → Config
    → Option Registry
observability lib works meter cfg =
    new lib (meter_or_nil (build_otlp_meter works meter cfg.worker.otel.metrics))

module _ (works : List ExporterOption → Bool) (meter : Option (Kind → String → Bool)) where
  meter_found :
      (cfg : OtelMetricsConfig)
      → meter_or_nil (build_otlp_meter works meter cfg)
        ≡ meter_of (has_meter (build_otlp_meter works meter cfg))
  unfolding build_otlp_meter new_otlp_meter new_instruments
  meter_found cfg = ground arith

  -- Where the client library of Prometheus does as it documents, the registration of the collectors of
  -- the worker does not panic, and neither does any sequence of recordings: Prometheus receives the
  -- samples that docs/OBSERVABILITY.md lists for these calls, whatever becomes of the OTLP meter, and
  -- OTLP receives the same ones under the same names and labels, if its meter could be made, and
  -- nothing otherwise.
  pub observability-records :
      (lib : Prometheus) (cfg : Config) (calls : List Call) (x : Exported)
      → IsDocumented lib
      → (r : Registry) × (observability lib works meter cfg ≡ some r)
        × (record_calls lib (some r) calls x
            ≡ some (
                received
                  (has_meter (build_otlp_meter works meter cfg.worker.otel.metrics))
                  (all_samples calls)
                  x))
  unfolding observability
  observability-records lib cfg calls x doc =
      let metrics = cfg.worker.otel.metrics in
      let is_there = has_meter (build_otlp_meter works meter metrics) in
      (
        collectors (meter_of is_there),
        ap (new lib) (meter_found metrics) ∙ new-collectors lib doc (meter_of is_there),
        record_calls-received lib doc is_there calls x,
      )
