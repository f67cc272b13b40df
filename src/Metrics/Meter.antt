-- ===== src/Metrics/Meter.antt =====
-- internal/metrics/otel_meter.go: the instruments of OTLP. Which instruments the library makes is a
-- parameter.
use gitlab_elt.Common.{String, Bool, Option, none, some, List, [], ◌∷◌, if◌then◌else◌}
use gitlab_elt.Common.Int.{pos}
use gitlab_elt.Metrics.{
  Value, grown_by, observed, set_to, Exported, Call, record_sync_run, record_gitlab_request,
  record_raw_event_ingested, record_transform_result, record_last_successful_sync,
  set_projects_monitored, unix,
}

pub data Kind : Type 0 where
  int64_counter float64_histogram float64_gauge : Kind

pub record Instrument : Type 0 where
  pub kind : Kind
  pub name : String

pub record OtlpMeter : Type 0 where
  pub sync_runs : Instrument
  pub sync_duration : Instrument
  pub gitlab_requests : Instrument
  pub gitlab_request_latency : Instrument
  pub raw_events_ingested : Instrument
  pub transform_results : Instrument
  pub last_success : Instrument
  pub projects_monitored : Instrument

-- The results with an error, which names the instrument that could not be made.
pub data MeterResult (A : Type 0) : Type 0 where
  made : A → MeterResult A
  not_made : String → MeterResult A

infixl 5 ◌>>=◌
abbrev ◌>>=◌ : {A B : Type 0} → MeterResult A → (A → MeterResult B) → MeterResult B
made a >>= f = f a
not_made name >>= f = not_made name

module _ (makes : Kind → String → Bool) where
  abbrev instrument : Kind → String → MeterResult Instrument
  instrument kind name =
      if makes kind name then made (record { kind = kind; name = name }) else not_made name

  unfoldable pub new_instruments : MeterResult OtlpMeter
  new_instruments = do
    sync_runs ← instrument int64_counter "gitlab_elt_sync_runs_total"
    sync_duration ← instrument float64_histogram "gitlab_elt_sync_duration_seconds"
    gitlab_requests ← instrument int64_counter "gitlab_elt_gitlab_requests_total"
    gitlab_request_latency ←
        instrument float64_histogram "gitlab_elt_gitlab_request_duration_seconds"
    raw_events_ingested ← instrument int64_counter "gitlab_elt_raw_events_ingested_total"
    transform_results ← instrument int64_counter "gitlab_elt_transform_results_total"
    last_success ← instrument float64_gauge "gitlab_elt_last_successful_sync_timestamp"
    projects_monitored ← instrument float64_gauge "gitlab_elt_projects_monitored"
    made (record {
      sync_runs = sync_runs;
      sync_duration = sync_duration;
      gitlab_requests = gitlab_requests;
      gitlab_request_latency = gitlab_request_latency;
      raw_events_ingested = raw_events_ingested;
      transform_results = transform_results;
      last_success = last_success;
      projects_monitored = projects_monitored;
    })

abbrev pub some_meter : MeterResult OtlpMeter → MeterResult (Option OtlpMeter)
some_meter (made m) = made (some m)
some_meter (not_made name) = not_made name

-- No meter of the library gives no meter and no error.
unfoldable pub new_otlp_meter : Option (Kind → String → Bool) → MeterResult (Option OtlpMeter)
new_otlp_meter none = made none
new_otlp_meter (some makes) = some_meter (new_instruments makes)

-- `Add` and `Record` of an instrument, with its attributes.
abbrev pub point : Instrument → List (String × String) → Value → Exported → Exported
point i attributes v x = record x {
  otlp = record { name = i.name; labels = attributes; value = v } ∷ x.otlp;
}

-- The six methods, each of which records on one instrument or on two.
unfoldable pub meter_record : OtlpMeter → Call → Exported → Exported
meter_record m (record_sync_run stage status duration) x =
    let counted = point m.sync_runs (("stage", stage) ∷ ("status", status) ∷ []) (grown_by 1) x in
    point m.sync_duration (("stage", stage) ∷ []) (observed duration) counted
meter_record m (record_gitlab_request endpoint status duration) x =
    let counted =
      point m.gitlab_requests (("endpoint", endpoint) ∷ ("status", status) ∷ []) (grown_by 1) x in
    point m.gitlab_request_latency (("endpoint", endpoint) ∷ []) (observed duration) counted
meter_record m (record_raw_event_ingested project_id event_type count) x =
    point m.raw_events_ingested (("project_id", project_id) ∷ ("event_type", event_type) ∷ [])
      (grown_by count) x
meter_record m (record_transform_result project_id event_type status) x =
    point m.transform_results
      (("project_id", project_id) ∷ ("event_type", event_type) ∷ ("status", status) ∷ [])
      (grown_by 1) x
meter_record m (record_last_successful_sync project_id stage ts) x =
    point m.last_success (("project_id", project_id) ∷ ("stage", stage) ∷ []) (set_to (unix ts)) x
meter_record m (set_projects_monitored n) x = point m.projects_monitored [] (set_to (pos n)) x
