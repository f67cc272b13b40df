-- ===== src/Metrics/Mirror.antt =====
-- Prometheus and OTLP receive the same samples (internal/metrics/metrics.go, otel_meter.go).
use mathlib.Core.List.{append_assoc}
use gitlab_elt.Common.{
  Bool, true, false, Option, none, some, List, [], ◌∷◌, ◌++◌, ◌≡◌, refl, sym, ap, ap₂, ◌∙◌,
  Bool-cases, inl, inr, if◌then◌else◌, string_eq,
}
use gitlab_elt.Metrics.{
  Call, and_then, record_sync_run, record_gitlab_request, record_raw_event_ingested,
  record_transform_result, record_last_successful_sync, set_projects_monitored, Exported, Sample,
}
use gitlab_elt.Metrics.Catalog.{samples_of, all_samples}
use gitlab_elt.Metrics.Documented.{IsDocumented, zip_labels}
use gitlab_elt.Metrics.Meter.{
  OtlpMeter, int64_counter, float64_histogram, float64_gauge, meter_record,
}
use gitlab_elt.Metrics.Registry.{
  Prometheus, collectors, listed, new, not_positive, collect, recorded, record_call, record_calls,
}

-- The meter that has all its instruments.
abbrev pub instruments : OtlpMeter
instruments = record {
  sync_runs = record { kind = int64_counter; name = "gitlab_elt_sync_runs_total" };
  sync_duration = record { kind = float64_histogram; name = "gitlab_elt_sync_duration_seconds" };
  gitlab_requests = record { kind = int64_counter; name = "gitlab_elt_gitlab_requests_total" };
  gitlab_request_latency = record {
    kind = float64_histogram;
    name = "gitlab_elt_gitlab_request_duration_seconds";
  };
  raw_events_ingested = record {
    kind = int64_counter;
    name = "gitlab_elt_raw_events_ingested_total";
  };
  transform_results = record { kind = int64_counter; name = "gitlab_elt_transform_results_total" };
  last_success = record {
    kind = float64_gauge;
    name = "gitlab_elt_last_successful_sync_timestamp";
  };
  projects_monitored = record { kind = float64_gauge; name = "gitlab_elt_projects_monitored" };
}

-- The meter of a new registry.
abbrev pub meter_of : Bool → Option OtlpMeter
meter_of true = some instruments
meter_of false = none

-- The samples added to Prometheus, and to OTLP too if there is a meter.
abbrev pub received : Bool → List Sample → Exported → Exported
received has_meter samples x = record {
  prometheus = samples ++ x.prometheus;
  otlp = if has_meter then samples ++ x.otlp else x.otlp;
}

received-append :
    (has_meter : Bool) (later earlier : List Sample) (x : Exported)
    → received has_meter later (received has_meter earlier x)
      ≡ received has_meter (later ++ earlier) x
received-append true later earlier x =
    ap₂ (λ ps os. record { prometheus = ps; otlp = os })
      (sym (append_assoc later earlier x.prometheus)) (sym (append_assoc later earlier x.otlp))
received-append false later earlier x =
    ap (λ ps. record { prometheus = ps; otlp = x.otlp })
      (sym (append_assoc later earlier x.prometheus))

module _ (lib : Prometheus) (doc : IsDocumented lib) where
  record_call-received :
      (has_meter : Bool) (call : Call) (x : Exported)
      → record_call lib (some (collectors (meter_of has_meter))) call x
        ≡ some (received has_meter (samples_of call) x)
  unfolding record_call recorded collect zip_labels meter_record
  record_call-received true (record_sync_run stage status duration) x =
      rw
        (
          doc.pairs_labels ("stage" ∷ "status" ∷ []) (stage ∷ status ∷ []) refl,
          doc.pairs_labels ("stage" ∷ []) (stage ∷ []) refl,
        )
        refl
  record_call-received false (record_sync_run stage status duration) x =
      rw
        (
          doc.pairs_labels ("stage" ∷ "status" ∷ []) (stage ∷ status ∷ []) refl,
          doc.pairs_labels ("stage" ∷ []) (stage ∷ []) refl,
        )
        refl
  record_call-received true (record_gitlab_request endpoint status duration) x =
      rw
        (
          doc.pairs_labels ("endpoint" ∷ "status" ∷ []) (endpoint ∷ status ∷ []) refl,
          doc.pairs_labels ("endpoint" ∷ []) (endpoint ∷ []) refl,
        )
        refl
  record_call-received false (record_gitlab_request endpoint status duration) x =
      rw
        (
          doc.pairs_labels ("endpoint" ∷ "status" ∷ []) (endpoint ∷ status ∷ []) refl,
          doc.pairs_labels ("endpoint" ∷ []) (endpoint ∷ []) refl,
        )
        refl
  record_call-received true (record_raw_event_ingested project_id event_type count) x =
      elim (Bool-cases (not_positive count)) [
        | inl e ↦ rw e refl
        | inr e ↦
            rw
              (
                e,
                doc.pairs_labels ("project_id" ∷ "event_type" ∷ []) (project_id ∷ event_type ∷ [])
                    refl,
              )
              refl
      ]
  record_call-received false (record_raw_event_ingested project_id event_type count) x =
      elim (Bool-cases (not_positive count)) [
        | inl e ↦ rw e refl
        | inr e ↦
            rw
              (
                e,
                doc.pairs_labels ("project_id" ∷ "event_type" ∷ []) (project_id ∷ event_type ∷ [])
                    refl,
              )
              refl
      ]
  record_call-received true (record_transform_result project_id event_type status) x =
      rw
        (doc.pairs_labels ("project_id" ∷ "event_type" ∷ "status" ∷ [])
          (project_id ∷ event_type ∷ status ∷ []) refl)
        refl
  record_call-received false (record_transform_result project_id event_type status) x =
      rw
        (doc.pairs_labels ("project_id" ∷ "event_type" ∷ "status" ∷ [])
          (project_id ∷ event_type ∷ status ∷ []) refl)
        refl
  record_call-received true (record_last_successful_sync project_id stage ts) x =
      rw (doc.pairs_labels ("project_id" ∷ "stage" ∷ []) (project_id ∷ stage ∷ []) refl) refl
  record_call-received false (record_last_successful_sync project_id stage ts) x =
      rw (doc.pairs_labels ("project_id" ∷ "stage" ∷ []) (project_id ∷ stage ∷ []) refl) refl
  record_call-received true (set_projects_monitored n) x = refl
  record_call-received false (set_projects_monitored n) x = refl

  pub record_calls-received :
      (has_meter : Bool) (calls : List Call) (x : Exported)
      → record_calls lib (some (collectors (meter_of has_meter))) calls x
        ≡ some (received has_meter (all_samples calls) x)
  unfolding record_calls
  record_calls-received true [] x = refl
  record_calls-received false [] x = refl
  record_calls-received has_meter (call ∷ calls) x =
      let R = some (collectors (meter_of has_meter)) in
      ap (λ o. and_then o (record_calls lib R calls)) (record_call-received has_meter call x)
      ∙ record_calls-received has_meter calls (received has_meter (samples_of call) x)
      ∙ ap some (received-append has_meter (all_samples calls) (samples_of call) x)

  -- The names of the collectors differ.
  pub new-collectors : (otel : Option OtlpMeter) → new lib otel ≡ some (collectors otel)
  unfolding new
  new-collectors otel = rw (doc.takes_distinct (listed (collectors otel)) refl) refl
