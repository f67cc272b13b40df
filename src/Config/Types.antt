-- ===== src/Config/Types.antt =====
-- internal/config/config.go: the configuration, and the errors of reading it.
use Prim.Native.String.{◌++◌ as ◌<>◌}
use gitlab_elt.Common.{ℕ, String, Bool, List, GoMap, ◌≡◌, ◌⊎◌, inl, inr, refl}
use gitlab_elt.Text.Integers.{format_int}

pub record PostgresConfig : Type 0 where
  pub host : String
  pub port : ℕ
  pub user : String
  pub password : String
  pub db : String

pub dsn : PostgresConfig → String
dsn p =
    "postgres://"
    <> (p.user
        <> (":"
            <> (p.password
                <> ("@"
                    <> (p.host
                        <> (":"
                            <> (format_int p.port <> ("/" <> (p.db <> "?sslmode=disable")))))))))

pub record GitlabConfig : Type 0 where
  pub base_url : String
  pub token : String
  pub project_ids : List ℕ
  pub group_ids : List ℕ
  pub rate_limit : ℕ
  pub retry_max : ℕ

pub record OtelMetricsConfig : Type 0 where
  pub endpoint : String
  pub headers : GoMap String String
  pub insecure : Bool

pub record OtelTracingConfig : Type 0 where
  pub endpoint : String
  pub headers : GoMap String String
  pub insecure : Bool
  pub sampler : String

pub record OtelResourceConfig : Type 0 where
  pub service_name : String
  pub service_version : String
  pub environment : String
  pub namespace : String
  pub instance_id : String
  pub attributes : GoMap String String

pub record WorkerOtelConfig : Type 0 where
  pub metrics : OtelMetricsConfig
  pub resource : OtelResourceConfig
  pub tracing : OtelTracingConfig

pub record WorkerConfig : Type 0 where
  pub health_port : ℕ
  pub otel : WorkerOtelConfig

pub record SchedulerConfig : Type 0 where
  pub sync_peak : String
  pub sync_off_peak : String
  pub discovery : String

pub record Config : Type 0 where
  pub postgres : PostgresConfig
  pub gitlab : GitlabConfig
  pub worker : WorkerConfig
  pub scheduler : SchedulerConfig

-- The errors, each with the variable or the text that its message names. `about` is the wrapping by
-- `%w`, with the variable that the message begins with.
pub data Error : Type 0 where
  unreadable : String → String → Error
  is_required : String → Error
  no_integer no_boolean : String → Error
  empty_list no_source : Error
  invalid_entry : String → String → Error
  invalid_sampler missing_ratio bad_ratio ratio_range : String → Error
  about : String → Error → Error

pub data Result (A : Type 0) : Type 0 where
  ok : A → Result A
  err : Error → Result A

infixl 5 ◌>>=◌
abbrev pub ◌>>=◌ : {A B : Type 0} → Result A → (A → Result B) → Result B
ok a >>= f = f a
err e >>= f = err e

-- `fmt.Errorf("…: %w", err)` of the error of a call.
abbrev pub named : {A : Type 0} → String → Result A → Result A
named key (ok a) = ok a
named key (err e) = err (about key e)

pub Result-cases :
    {A : Type 0} (r : Result A) → ((a : A) × (r ≡ ok a)) ⊎ ((e : Error) × (r ≡ err e))
Result-cases (ok a) = inl (a, refl)
Result-cases (err e) = inr (e, refl)

-- Where a body returns a value, its first call gave one, and the rest of the body took it.
pub >>=-ok :
    {A B : Type 0} (r : Result A) (rest : A → Result B) {out : B}
    → (r >>= rest) ≡ ok out
    → (value : A) × (r ≡ ok value) × (rest value ≡ ok out)
>>=-ok (err e) rest returned = cc
>>=-ok (ok value) rest returned = (value, refl, returned)

pub named-ok : {A : Type 0} (key : String) (r : Result A) {a : A} → named key r ≡ ok a → r ≡ ok a
named-ok key (ok a) h = h
named-ok key (err e) h = cc
