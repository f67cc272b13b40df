-- ===== src/Config/Telemetry.antt =====
-- internal/config/config.go: the settings of OpenTelemetry. They come from variables alone, not from
-- files.
pub mod Headers
pub mod Sampler
use gitlab_elt.Common.{
  ℕ, String, Bool, true, false, ◌||◌, Option, none, some, List, [], ◌∷◌, GoMap, insert, ◌==◌,
  string_eq, if◌then◌else◌,
}
use gitlab_elt.Text.{trim_space}
use gitlab_elt.Text.Parts.{split, split_two, strip_prefix}
use gitlab_elt.Config.Types.{
  OtelMetricsConfig, OtelTracingConfig, OtelResourceConfig, Error, no_boolean, invalid_entry,
  invalid_sampler, missing_ratio, bad_ratio, ratio_range, about, Result, ok, err, ◌>>=◌,
}
use gitlab_elt.Config.Variables.{Os}

-- Go's `float64`, with the order `<` of it and `strconv.ParseFloat`. NaN is a value that is in this
-- order with none.
pub record Floats : Type 1 where
  pub Float : Type 0
  pub less : Float → Float → Bool
  pub zero_float : Float
  pub one_float : Float
  pub parse_float : String → Option Float

-- What the two loops over `key=value` do with one entry. They differ in the value: a header may have
-- an empty one.
abbrev pub header_of : Option (String × String) → Option (String × String)
header_of none = none
header_of (some (k, v)) = if trim_space k == "" then none else some (trim_space k, trim_space v)

abbrev pub attribute_of : Option (String × String) → Option (String × String)
attribute_of none = none
attribute_of (some (k, v)) =
    if trim_space k == "" || trim_space v == "" then none else some (trim_space k, trim_space v)

abbrev pub put_entry :
    String
    → String
    → Option (String × String)
    → GoMap String String
    → (GoMap String String → Result (GoMap String String))
    → Result (GoMap String String)
put_entry env_key pair none result rest = err (invalid_entry env_key pair)
put_entry env_key pair (some (k, v)) result rest = rest (insert k v result)

-- The loop over the pairs. An empty pair is passed over, and an entry that is none ends it.
unfoldable pub parse_pairs :
    String
    → (Option (String × String) → Option (String × String))
    → List String
    → GoMap String String
    → Result (GoMap String String)
parse_pairs env_key entry [] result = ok result
parse_pairs env_key entry (p ∷ pairs) result =
    let pair = trim_space p in
    let rest = parse_pairs env_key entry pairs in
    if pair == ""
    then rest result
    else put_entry env_key pair (entry (split_two b'=' pair)) result rest

unfoldable pub parse_otel_headers : String → String → Result (GoMap String String)
parse_otel_headers value env_key = parse_pairs env_key header_of (split b',' value) []

unfoldable pub parse_attributes : String → Result (GoMap String String)
parse_attributes attrs = parse_pairs "OTEL_RESOURCE_ATTRIBUTES" attribute_of (split b',' attrs) []

-- `strconv.ParseBool`
unfoldable pub parse_bool : String → Option Bool
parse_bool s =
    if s == "1" || s == "t" || s == "T" || s == "true" || s == "TRUE" || s == "True"
    then some true
    else if s == "0" || s == "f" || s == "F" || s == "false" || s == "FALSE" || s == "False"
    then some false
    else none

abbrev pub boolean : String → String → Option Bool → Result Bool
boolean key v none = err (about key (no_boolean v))
boolean key v (some b) = ok b

module _ (os : Os) where
  abbrev pub trimmed_env : String → String
  trimmed_env key = trim_space (os.getenv key)

  abbrev pub env_or : String → String → String
  env_or key default_val = if trimmed_env key == "" then default_val else trimmed_env key

  unfoldable pub headers_env : String → Result (GoMap String String)
  headers_env key =
      if trimmed_env key == "" then ok [] else parse_otel_headers (trimmed_env key) key

  unfoldable pub insecure_env : String → Result Bool
  insecure_env key =
      if trimmed_env key == ""
      then ok false
      else boolean key (trimmed_env key) (parse_bool (trimmed_env key))

  -- With no endpoint the other two variables are not read.
  unfoldable pub load_otel_metrics_config : Result OtelMetricsConfig
  load_otel_metrics_config =
      if trimmed_env "OTEL_METRICS_ENDPOINT" == ""
      then ok (record { endpoint = ""; headers = []; insecure = false })
      else do
        headers ← headers_env "OTEL_METRICS_HEADERS"
        insecure ← insecure_env "OTEL_METRICS_INSECURE"
        ok (record {
          endpoint = trimmed_env "OTEL_METRICS_ENDPOINT";
          headers = headers;
          insecure = insecure;
        })

  unfoldable pub attributes_env : Result (GoMap String String)
  attributes_env =
      if trimmed_env "OTEL_RESOURCE_ATTRIBUTES" == ""
      then ok []
      else parse_attributes (trimmed_env "OTEL_RESOURCE_ATTRIBUTES")

  unfoldable pub load_otel_resource_config : Result OtelResourceConfig
  load_otel_resource_config = do
    attributes ← attributes_env
    ok (record {
      service_name = env_or "OTEL_SERVICE_NAME" "gitlab-elt-worker";
      service_version = trimmed_env "OTEL_SERVICE_VERSION";
      environment = env_or "OTEL_ENVIRONMENT" "production";
      namespace = trimmed_env "OTEL_SERVICE_NAMESPACE";
      instance_id = trimmed_env "OTEL_SERVICE_INSTANCE_ID";
      attributes = attributes;
    })

abbrev pub default_otel_tracing_sampler : String
default_otel_tracing_sampler = "parentbased_always_on"

module _ (floats : Floats) where
  open floats use {Float, less, zero_float, one_float, parse_float}

  abbrev pub check_ratio : String → Option Float → Result (Unit {0})
  check_ratio value none = err (bad_ratio value)
  check_ratio value (some ratio) =
      if less ratio zero_float || less one_float ratio then err (ratio_range value) else ok tt

  abbrev pub check_prefix : String → Option String → Result (Unit {0})
  check_prefix value none = err (invalid_sampler value)
  check_prefix value (some ratio) =
      let ratio_str = trim_space ratio in
      if ratio_str == ""
      then err (missing_ratio value)
      else check_ratio value (parse_float ratio_str)

  unfoldable pub validate_otel_sampler : String → Result (Unit {0})
  validate_otel_sampler value =
      if value == "always_on" || value == "always_off" || value == default_otel_tracing_sampler
      then ok tt
      else check_prefix value (strip_prefix "traceidratio:" value)

  unfoldable pub load_otel_tracing_config : Os → Result OtelTracingConfig
  load_otel_tracing_config os = do
    headers ← headers_env os "OTEL_TRACES_HEADERS"
    insecure ← insecure_env os "OTEL_TRACES_INSECURE"
    let sampler = env_or os "OTEL_TRACES_SAMPLER" default_otel_tracing_sampler
    _ ← validate_otel_sampler sampler
    ok (record {
      endpoint = trimmed_env os "OTEL_TRACES_ENDPOINT";
      headers = headers;
      insecure = insecure;
      sampler = sampler;
    })
