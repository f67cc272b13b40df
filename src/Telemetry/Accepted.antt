-- ===== src/Telemetry/Accepted.antt =====
-- The sampler of a loaded configuration is one that the tracing takes (internal/telemetry/tracing.go).
use Prim.Native.String.{◌++◌ as ◌<>◌}
use gitlab_elt.Common.{
  true, String, Bool, false, Option, none, some, List, ◌==◌, string_eq, ◌≡◌, ◌≢◌, refl, ap, ◌∙◌,
  inl, inr, Bool-cases, eq_iff, arith,
}
use gitlab_elt.Text.{trim_space}
use gitlab_elt.Text.Parts.{strip_prefix}
use gitlab_elt.Text.Parts.Laws.{strip_prefix-append}
use gitlab_elt.Metrics.Resource.{Attribute}
use gitlab_elt.Config.Types.{OtelTracingConfig, Config, ok}
use gitlab_elt.Config.Variables.{Os}
use gitlab_elt.Config.Telemetry.{Floats}
use gitlab_elt.Config.Telemetry.Sampler.{
  IsSampler, always_on, always_off, parent_based as based_on_parent, trace_id_ratio,
}
use gitlab_elt.Config.Load.{load}
use gitlab_elt.Config.Load.Valid.{load-IsValid}
use gitlab_elt.Telemetry.{
  ExporterOption, exporter_options, Sampler, always_sample, never_sample, trace_id_ratio_based,
  parent_based, disabled, failed, built, sampled, exporter_failed, sampler_from_config,
  build_tracer_provider,
}

-- A text with a prefix is none without it.
other_than :
    (prefix value other : String) {rest : String}
    → strip_prefix prefix value ≡ some rest
    → strip_prefix prefix other ≡ none
    → (value == other) ≡ false
other_than prefix value other found missing = elim (Bool-cases (value == other)) [
  | inr differs ↦ differs
  | inl same ↦ absurd (ground (arith, ap (strip_prefix prefix) ((eq_iff value other).0 same)))
]

module _ (floats : Floats) where
  open floats use {Float, parse_float}

  -- The sampler that a value of OTEL_TRACES_SAMPLER stands for.
  pub data Means (value : String) (s : Sampler Float) : Type 0 where
    all_traces : value ≡ "always_on" → s ≡ always_sample → Means value s
    no_trace : value ≡ "always_off" → s ≡ never_sample → Means value s
    all_of_parent : value ≡ "parentbased_always_on" → s ≡ parent_based always_sample → Means value s
    some_of_parent :
        (rest : String) (ratio : Float)
        → value ≡ "traceidratio:" <> rest
        → parse_float (trim_space rest) ≡ some ratio
        → s ≡ parent_based (trace_id_ratio_based ratio)
        → Means value s

  -- What the builder returns for a configuration: nothing without an endpoint, an error where the
  -- library makes no exporter, and a provider with the configured sampler in every other case.
  pub data Starts (works : List ExporterOption → Bool) (cfg : OtelTracingConfig)
      (res : Option (List Attribute)) : Type 0 where
    no_endpoint :
        trim_space cfg.endpoint ≡ ""
        → build_tracer_provider floats works cfg res ≡ disabled
        → Starts works cfg res
    no_exporter :
        trim_space cfg.endpoint ≢ ""
        → works (exporter_options (trim_space cfg.endpoint) cfg.headers cfg.insecure) ≡ false
        → build_tracer_provider floats works cfg res ≡ failed exporter_failed
        → Starts works cfg res
    provider :
        (s : Sampler Float)
        → trim_space cfg.endpoint ≢ ""
        → works (exporter_options (trim_space cfg.endpoint) cfg.headers cfg.insecure) ≡ true
        → Means cfg.sampler s
        → build_tracer_provider floats works cfg res
          ≡ built (record {
            options = exporter_options (trim_space cfg.endpoint) cfg.headers cfg.insecure;
            sampler = s;
            resource = res;
          })
        → Starts works cfg res

  sampler_from_config-Means :
      (value : String)
      → IsSampler floats value
      → (s : Sampler Float) × (sampler_from_config floats value ≡ sampled s) × Means value s
  unfolding sampler_from_config strip_prefix
  sampler_from_config-Means value (always_on e) = (always_sample, rw e refl, all_traces e refl)
  sampler_from_config-Means value (always_off e) = (never_sample, rw e refl, no_trace e refl)
  sampler_from_config-Means value (based_on_parent e) =
      (parent_based always_sample, rw e refl, all_of_parent e refl)
  sampler_from_config-Means value (trace_id_ratio rest ratio e full parsed low high) =
      let found : strip_prefix "traceidratio:" value ≡ some rest =
        ap (strip_prefix "traceidratio:") e ∙ strip_prefix-append "traceidratio:" rest in
      let s = parent_based (trace_id_ratio_based ratio) in
      let not_on = other_than "traceidratio:" value "always_on" found refl in
      let not_off = other_than "traceidratio:" value "always_off" found refl in
      let not_empty = other_than "traceidratio:" value "" found refl in
      let not_based = other_than "traceidratio:" value "parentbased_always_on" found refl in
      (s, ground (arith, eq_iff (trim_space rest) ""), some_of_parent rest ratio e parsed refl)

  build-Starts :
      (works : List ExporterOption → Bool) (cfg : OtelTracingConfig) (res : Option (List Attribute))
      → IsSampler floats cfg.sampler
      → Starts works cfg res
  unfolding build_tracer_provider
  build-Starts works cfg res known =
      let opts = exporter_options (trim_space cfg.endpoint) cfg.headers cfg.insecure in
      elim (Bool-cases (trim_space cfg.endpoint == "")) [
        | inl none_given ↦ no_endpoint ((eq_iff _ _).0 none_given) (rw none_given refl)
        | inr given ↦
            let not_blank : trim_space cfg.endpoint ≢ "" =
              ground (arith, eq_iff (trim_space cfg.endpoint) "") in
            elim (Bool-cases (works opts)) [
              | inr broken ↦ no_exporter not_blank broken (rw (given, broken) refl)
              | inl made ↦
                  let (s, taken, means) = sampler_from_config-Means cfg.sampler known in
                  provider s not_blank made means (rw (given, made, taken) refl)
            ]
      ]

  -- With the configuration that `Load` returned, the builder of the tracer never fails for its
  -- sampler: it returns nothing if the endpoint is blank, an error if the library makes no exporter
  -- of the options, and else a provider with these options, the resource, and the sampler that the
  -- configured text stands for.
  pub load-Starts :
      (os : Os) (c : Config) (works : List ExporterOption → Bool) (res : Option (List Attribute))
      → load os floats ≡ ok c
      → Starts works c.worker.otel.tracing res
  load-Starts os c works res loaded =
      build-Starts works c.worker.otel.tracing res (load-IsValid os floats c loaded).sampler_known
