-- ===== src/Telemetry.antt =====
-- internal/telemetry/tracing.go. What the exporter of the library makes of its options is a parameter;
-- the context, the logger and the shutdown are left out.
pub mod Accepted
use gitlab_elt.Common.{
  String, Bool, true, false, ◌||◌, Option, none, some, List, [], ◌∷◌, ◌++◌, GoMap, ◌==◌, string_eq,
  if◌then◌else◌,
}
use gitlab_elt.Text.{trim_space}
use gitlab_elt.Text.Parts.{strip_prefix}
use gitlab_elt.Metrics.Resource.{Attribute}
use gitlab_elt.Config.Types.{OtelTracingConfig}
use gitlab_elt.Config.Telemetry.{Floats, default_otel_tracing_sampler}

-- The options of an exporter over HTTP. `skip_verify` is the TLS configuration that takes any
-- certificate.
pub data ExporterOption : Type 0 where
  with_endpoint_url with_endpoint : String → ExporterOption
  with_headers : GoMap String String → ExporterOption
  skip_verify with_insecure : ExporterOption

-- `strings.HasPrefix`
abbrev pub has_prefix : String → String → Bool
has_prefix prefix s = elim (strip_prefix prefix s) [ none ↦ false | some rest ↦ true ]

abbrev pub endpoint_option : String → ExporterOption
endpoint_option endpoint =
    if has_prefix "http://" endpoint || has_prefix "https://" endpoint
    then with_endpoint_url endpoint
    else with_endpoint endpoint

abbrev pub headers_option : GoMap String String → List ExporterOption
headers_option [] = []
headers_option (h ∷ hs) = with_headers (h ∷ hs) ∷ []

abbrev pub insecure_option : Bool → String → List ExporterOption
insecure_option false endpoint = []
insecure_option true endpoint =
    (if has_prefix "https://" endpoint then skip_verify else with_insecure) ∷ []

-- The options, for the endpoint without the space around it.
abbrev pub exporter_options : String → GoMap String String → Bool → List ExporterOption
exporter_options endpoint headers insecure =
    endpoint_option endpoint ∷ (headers_option headers ++ insecure_option insecure endpoint)

pub data Sampler (Float : Type 0) : Type 0 where
  always_sample never_sample : Sampler Float
  trace_id_ratio_based : Float → Sampler Float
  parent_based : Sampler Float → Sampler Float

pub data Error : Type 0 where
  exporter_failed : Error
  unsupported_sampler missing_ratio bad_ratio ratio_range : String → Error

-- What a builder returns: no provider and no error, an error, or the provider.
pub data Built (A : Type 0) : Type 0 where
  disabled : Built A
  failed : Error → Built A
  built : A → Built A

pub record TracerProvider (Float : Type 0) : Type 0 where
  pub options : List ExporterOption
  pub sampler : Sampler Float
  pub resource : Option (List Attribute)

pub data SamplerResult (Float : Type 0) : Type 0 where
  sampled : Sampler Float → SamplerResult Float
  rejected : Error → SamplerResult Float

module _ (floats : Floats) where
  open floats use {Float, less, zero_float, one_float, parse_float}

  abbrev pub ratio_sampler : String → Option Float → SamplerResult Float
  ratio_sampler value none = rejected (bad_ratio value)
  ratio_sampler value (some ratio) =
      if less ratio zero_float || less one_float ratio
      then rejected (ratio_range value)
      else sampled (parent_based (trace_id_ratio_based ratio))

  abbrev pub prefixed_sampler : String → Option String → SamplerResult Float
  prefixed_sampler value none = rejected (unsupported_sampler value)
  prefixed_sampler value (some ratio) =
      let ratio_str = trim_space ratio in
      if ratio_str == ""
      then rejected (missing_ratio value)
      else ratio_sampler value (parse_float ratio_str)

  unfoldable pub sampler_from_config : String → SamplerResult Float
  sampler_from_config value =
      if value == "always_on"
      then sampled always_sample
      else if value == "always_off"
      then sampled never_sample
      else if value == "" || value == default_otel_tracing_sampler
      then sampled (parent_based always_sample)
      else prefixed_sampler value (strip_prefix "traceidratio:" value)

  abbrev pub with_sampler :
      List ExporterOption
      → Option (List Attribute)
      → SamplerResult Float
      → Built (TracerProvider Float)
  with_sampler opts res (rejected e) = failed e
  with_sampler opts res (sampled s) = built (record { options = opts; sampler = s; resource = res })

  -- `works` says for which options the library makes an exporter.
  unfoldable pub build_tracer_provider :
      (List ExporterOption → Bool)
      → OtelTracingConfig
      → Option (List Attribute)
      → Built (TracerProvider Float)
  build_tracer_provider works cfg res =
      let endpoint = trim_space cfg.endpoint in
      let opts = exporter_options endpoint cfg.headers cfg.insecure in
      if endpoint == ""
      then disabled
      else if works opts
      then with_sampler opts res (sampler_from_config cfg.sampler)
      else failed exporter_failed
