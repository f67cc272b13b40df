-- ===== src/Config/Telemetry/Sampler.antt =====
-- The samplers that are accepted (internal/config/config.go).
use Prim.Native.Char.{code}
use Prim.Native.String.{◌++◌ as ◌<>◌}
use text.Mathlib.TextEquality.{Char-path}
use text.Mathlib.TextLemmas.{nil-append, cons-append}
use gitlab_elt.Common.{
  String, false, some, ◌==◌, nat_eq, string_eq, eq_iff, Bool-cases, Option-cases, ◌≡◌, ◌≢◌, ◌↔◌,
  inl, inr, ap, ◌∙◌, ap₂, ==→≡, sym, arith,
}
use gitlab_elt.Text.{trim_space}
use gitlab_elt.Text.Parts.{strip_prefix}
use gitlab_elt.Text.Parts.Laws.{strip_prefix-append}
use gitlab_elt.Config.Types.{ok}
use gitlab_elt.Config.Telemetry.{
  Floats, default_otel_tracing_sampler, check_prefix, validate_otel_sampler,
}

strip_prefix-eq : (p s : String) {rest : String} → strip_prefix p s ≡ some rest → s ≡ p <> rest
unfolding strip_prefix
strip_prefix-eq String.[] s h = rw nil-append (ground arith)
strip_prefix-eq (String.◌∷◌ p ps) String.[] h = cc
strip_prefix-eq (String.◌∷◌ p ps) (String.◌∷◌ c s) h = elim (Bool-cases (code p == code c)) [
  | inr differs ↦ absurd (ground arith)
  | inl same ↦
      rw cons-append
        (ap₂ String.◌∷◌ (sym (Char-path p c (==→≡ _ _ same))) (strip_prefix-eq ps s (ground arith)))
]

-- A sampler is one of three names, or a prefix with a number that is neither below 0 nor above 1.
-- NaN, which is neither, counts.
module _ (floats : Floats) where
  pub data IsSampler (value : String) : Type 0 where
    always_on : value ≡ "always_on" → IsSampler value
    always_off : value ≡ "always_off" → IsSampler value
    parent_based : value ≡ "parentbased_always_on" → IsSampler value
    trace_id_ratio :
        (rest : String) (ratio : floats.Float)
        → value ≡ "traceidratio:" <> rest
        → trim_space rest ≢ ""
        → floats.parse_float (trim_space rest) ≡ some ratio
        → floats.less ratio floats.zero_float ≡ false
        → floats.less floats.one_float ratio ≡ false
        → IsSampler value

  check_prefix-IsSampler :
      (value : String)
      → check_prefix floats value (strip_prefix "traceidratio:" value) ≡ ok tt
      → IsSampler value
  check_prefix-IsSampler value h = elim (Option-cases (strip_prefix "traceidratio:" value)) [
    | inl missing ↦ absurd (ground arith)
    | inr (rest, found) ↦ elim (Option-cases (floats.parse_float (trim_space rest))) [
      | inl broken ↦ absurd (ground arith)
      | inr (ratio, parsed) ↦
          trace_id_ratio rest ratio (strip_prefix-eq "traceidratio:" value found)
            (ground (arith, eq_iff (trim_space rest) "")) parsed (ground arith) (ground arith)
    ]
  ]

  pub validate_otel_sampler-IsSampler :
      (value : String) → validate_otel_sampler floats value ≡ ok tt → IsSampler value
  unfolding validate_otel_sampler
  validate_otel_sampler-IsSampler value h = elim (Bool-cases (value == "always_on")) [
    | inl on ↦ always_on ((eq_iff _ _).0 on)
    | inr not_on ↦ elim (Bool-cases (value == "always_off")) [
      | inl off ↦ always_off ((eq_iff _ _).0 off)
      | inr not_off ↦ elim (Bool-cases (value == default_otel_tracing_sampler)) [
        | inl based ↦ parent_based ((eq_iff _ _).0 based)
        | inr other ↦ check_prefix-IsSampler value (ground arith)
      ]
    ]
  ]

  IsSampler-validate_otel_sampler :
      (value : String) → IsSampler value → validate_otel_sampler floats value ≡ ok tt
  unfolding validate_otel_sampler
  IsSampler-validate_otel_sampler value (always_on e) = rw e
  IsSampler-validate_otel_sampler value (always_off e) = rw e
  IsSampler-validate_otel_sampler value (parent_based e) = rw e
  IsSampler-validate_otel_sampler value (trace_id_ratio rest ratio e full parsed low high) =
      let found : strip_prefix "traceidratio:" value ≡ some rest =
        ap (strip_prefix "traceidratio:") e ∙ strip_prefix-append "traceidratio:" rest in
      ground (arith, eq_iff (trim_space rest) "")

  -- The validation accepts exactly the samplers.
  pub validate_otel_sampler_iff :
      (value : String) → (validate_otel_sampler floats value ≡ ok tt) ↔ IsSampler value
  validate_otel_sampler_iff value =
      (validate_otel_sampler-IsSampler value, IsSampler-validate_otel_sampler value)
