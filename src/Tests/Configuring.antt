-- ===== src/Tests/Configuring.antt =====
-- The configuration, the health endpoint and the times on sample data.
use gitlab_elt.Common.{
  ℕ, String, false, Option, none, some, List, [], ◌∷◌, map, ◌==◌, nat_eq, string_eq, ltb,
  if◌then◌else◌, insert, lookup, ◌≡◌, ◌↔◌, ◌⊎◌, refl, arith,
}
use gitlab_elt.Text.{trim_space, trim_left, trim_right, is_space, decimal}
use gitlab_elt.Text.Integers.{atoi, unsigned, digits_value, format_int}
use gitlab_elt.Text.Parts.{split, split_two, strip_prefix}
use gitlab_elt.Text.Parts.Laws.{join}
use gitlab_elt.Text.Times.{format_rfc3339}
use gitlab_elt.Config.Types.{Config, ok, err, ratio_range}
use gitlab_elt.Config.Variables.{
  Os, resolve_env_value, require_env_strict, require_env_int, env_or_default, env_or_default_int,
}
use gitlab_elt.Config.Lists.{parse_entries, parse_int_list}
use gitlab_elt.Config.Lists.RoundTrip.{parse_int_list-join}
use gitlab_elt.Config.Telemetry.{
  Floats, parse_pairs, parse_otel_headers, headers_env, insecure_env, attributes_env,
  load_otel_metrics_config, load_otel_resource_config, load_otel_tracing_config,
  validate_otel_sampler,
}
use gitlab_elt.Config.Load.{ids_env, health_port_env, load}
use gitlab_elt.Config.Load.Sources.{IsRead, load-IsRead}
use gitlab_elt.Config.Load.Valid.{IsValid, load-IsValid}
use gitlab_elt.Health.{Pinger, Mux, register_handlers, serve}
use gitlab_elt.Health.Replies.{Answers, register_handlers-serve}

-- The password comes from a file, the groups as a list, and the rest from the variables.
abbrev variables : List (String × String)
variables =
    ("POSTGRES_HOST", "db")
    ∷ ("POSTGRES_PORT", "5432")
    ∷ ("POSTGRES_USER", "elt")
    ∷ ("POSTGRES_PASSWORD_FILE", " /run/secrets/pw ")
    ∷ ("POSTGRES_DB", "gitlab")
    ∷ ("GITLAB_BASE_URL", "https://git.example")
    ∷ ("GITLAB_TOKEN", "t")
    ∷ ("GITLAB_GROUP_IDS", "1, 2")
    ∷ ("SCHEDULER_DISCOVERY_FILE", "/missing")
    ∷ ("OTEL_TRACES_HEADERS", "a=b, a=c=d")
    ∷ []

abbrev text_or_nothing : Option String → String
text_or_nothing none = ""
text_or_nothing (some s) = s

abbrev pub os : Os
os = record {
  getenv = λ key. text_or_nothing (lookup key variables);
  read_file = λ path. if path == "/run/secrets/pw" then some "secret\n" else none;
}

-- Halves: 0, 1/2, 1 and 3/2.
abbrev pub floats : Floats
floats = record {
  Float = ℕ;
  less = ltb;
  zero_float = 0;
  one_float = 2;
  parse_float = λ s. if s == "0.5" then some 1 else if s == "1.5" then some 3 else none;
}

-- The same with a project in place of the groups.
abbrev pub os_projects : Os
os_projects = record os {
  getenv = λ key.
      if key == "GITLAB_GROUP_IDS"
      then ""
      else if key == "GITLAB_PROJECT_IDS"
      then "7"
      else os.getenv key;
}

abbrev pub config : Config
config = record {
  postgres = record { host = "db"; port = 5432; user = "elt"; password = "secret"; db = "gitlab" };
  gitlab = record {
    base_url = "https://git.example";
    token = "t";
    project_ids = [];
    group_ids = 1 ∷ 2 ∷ [];
    rate_limit = 20;
    retry_max = 3;
  };
  worker = record {
    health_port = 8080;
    otel = record {
      metrics = record { endpoint = ""; headers = []; insecure = false };
      resource = record {
        service_name = "gitlab-elt-worker";
        service_version = "";
        environment = "production";
        namespace = "";
        instance_id = "";
        attributes = [];
      };
      tracing = record {
        endpoint = "";
        headers = ("a", "c=d") ∷ [];
        insecure = false;
        sampler = "parentbased_always_on";
      };
    };
  };
  scheduler = record {
    sync_peak = "*/15 * * * *";
    sync_off_peak = "0 */4 * * *";
    discovery = "0 */6 * * *";
  };
}

abbrev pub config_projects : Config
config_projects = record config {
  gitlab = record config.gitlab { project_ids = 7 ∷ []; group_ids = [] };
}

pub loaded : load os floats ≡ ok config
unfolding load ids_env health_port_env resolve_env_value require_env_strict require_env_int
    env_or_default env_or_default_int parse_int_list parse_entries atoi unsigned digits_value split
    split_two strip_prefix trim_space trim_left trim_right is_space lookup insert parse_pairs
    parse_otel_headers headers_env insecure_env attributes_env load_otel_metrics_config
    load_otel_resource_config load_otel_tracing_config validate_otel_sampler
loaded = refl

pub loaded_projects : load os_projects floats ≡ ok config_projects
unfolding load ids_env health_port_env resolve_env_value require_env_strict require_env_int
    env_or_default env_or_default_int parse_int_list parse_entries atoi unsigned digits_value split
    split_two strip_prefix trim_space trim_left trim_right is_space lookup insert parse_pairs
    parse_otel_headers headers_env insecure_env attributes_env load_otel_metrics_config
    load_otel_resource_config load_otel_tracing_config validate_otel_sampler
loaded_projects = refl

load-IsRead_example : IsRead os config
load-IsRead_example = load-IsRead os floats config loaded

load-IsValid_example : IsValid floats config
load-IsValid_example = load-IsValid os floats config loaded

half : validate_otel_sampler floats "traceidratio: 0.5" ≡ ok tt
unfolding validate_otel_sampler strip_prefix trim_space trim_left trim_right is_space
half = refl

too_large : validate_otel_sampler floats "traceidratio:1.5" ≡ err (ratio_range "traceidratio:1.5")
unfolding validate_otel_sampler strip_prefix trim_space trim_left trim_right is_space
too_large = refl

-- 2 ^ 64 - 7 is the bit pattern of -7.
parse_int_list-join_example :
    parse_int_list (join "," (map format_int (42 ∷ 18446744073709551609 ∷ [])))
    ≡ ok (42 ∷ 18446744073709551609 ∷ [])
parse_int_list-join_example =
    parse_int_list-join (42 ∷ 18446744073709551609 ∷ []) (cc) (omega arith)

negative : format_int 18446744073709551609 ≡ "-7"
unfolding format_int decimal
negative = refl

abbrev get_method : String
get_method = "GET"

abbrev pinger : Pinger
pinger = record { ping = λ now. none }

register_handlers-serve_example :
    (mux : Mux) × (register_handlers [] (some pinger) none ≡ some mux)
    × (((serve mux "/health" 5 get_method).code ≡ 200)
        ↔ ((get_method ≡ get_method) × Answers (some pinger) 5))
    × (((serve mux "/health" 5 get_method).code ≡ 503) ↔ (
        (◌≡◌ {A = Option Pinger} (some pinger) none)
        ⊎ ((get_method ≡ get_method) × (¬ Answers (some pinger) 5))))
register_handlers-serve_example = register_handlers-serve (some pinger) none 5 get_method

epoch_start : format_rfc3339 62_135_596_800_000 ≡ "1970-01-01T00:00:00Z"
unfolding format_rfc3339
epoch_start = refl

leap_day : format_rfc3339 63_844_805_105_999 ≡ "2024-02-29T12:05:05Z"
unfolding format_rfc3339
leap_day = refl

last_day : format_rfc3339 63_113_903_999_000 ≡ "2000-12-31T23:59:59Z"
unfolding format_rfc3339
last_day = refl
