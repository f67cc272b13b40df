-- ===== src/Metrics.antt =====
-- internal/metrics: what the two systems of metrics, Prometheus and OTLP, receive. How the libraries
-- add the samples of a series up is theirs; here each keeps its samples, the latest first.
pub mod Meter
pub mod Registry
pub mod Exporter
pub mod Resource
pub mod Documented
pub mod Catalog
pub mod Mirror
use gitlab_elt.Common.{ℕ, String, Option, none, some, List, [], ◌∷◌, ◌/◌}
use gitlab_elt.Common.Int.{ℤ, pos, sub_ℕ}

-- A counter that grows, a histogram that takes a duration in nanoseconds, as its seconds, or a gauge
-- that is set.
pub data Value : Type 0 where
  grown_by : ℕ → Value
  observed : ℕ → Value
  set_to : ℤ → Value

pub record Sample : Type 0 where
  pub name : String
  pub labels : List (String × String)
  pub value : Value

pub record Exported : Type 0 where
  pub prometheus : List Sample
  pub otlp : List Sample

-- A recording, which may panic.
abbrev pub Step : Type 0
Step = Exported → Option Exported

abbrev pub and_then : Option Exported → Step → Option Exported
and_then none g = none
and_then (some y) g = g y

infixl 5 ◌>=>◌
abbrev pub ◌>=>◌ : Step → Step → Step
(f >=> g) x = and_then (f x) g

-- One call of the recorder.
pub data Call : Type 0 where
  record_sync_run : String → String → ℕ → Call
  record_gitlab_request : String → String → ℕ → Call
  record_raw_event_ingested : String → String → ℕ → Call
  record_transform_result : String → String → String → Call
  record_last_successful_sync : String → String → ℕ → Call
  set_projects_monitored : ℕ → Call

-- `ts.Unix()`, for milliseconds since year 1.
abbrev pub unix : ℕ → ℤ
unix ts = sub_ℕ (ts / 1000) 62_135_596_800
