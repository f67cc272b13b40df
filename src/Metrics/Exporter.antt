-- ===== src/Metrics/Exporter.antt =====
-- internal/metrics/otel_exporter.go. What the library makes of the options is a parameter, and so is
-- the meter of its provider.
use gitlab_elt.Common.{String, Bool, Option, none, List, ◌==◌, string_eq, if◌then◌else◌}
use gitlab_elt.Text.{trim_space}
use gitlab_elt.Config.Types.{OtelMetricsConfig}
use gitlab_elt.Metrics.Meter.{Kind, OtlpMeter, MeterResult, made, not_made, new_otlp_meter}
use gitlab_elt.Telemetry.{ExporterOption, exporter_options}

-- Without an endpoint there is no meter.
unfoldable pub build_otlp_meter :
    (List ExporterOption → Bool)
    → Option (Kind → String → Bool)
    → OtelMetricsConfig
    → MeterResult (Option OtlpMeter)
build_otlp_meter works meter cfg =
    let opts = exporter_options (trim_space cfg.endpoint) cfg.headers cfg.insecure in
    if cfg.endpoint == ""
    then made none
    else if works opts
    then new_otlp_meter meter
    else not_made "OTLP metrics exporter"
