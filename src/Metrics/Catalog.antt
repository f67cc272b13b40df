-- ===== src/Metrics/Catalog.antt =====
-- The catalog of the metrics in docs/OBSERVABILITY.md.
use gitlab_elt.Common.{List, [], ◌∷◌, ◌++◌, if◌then◌else◌}
use gitlab_elt.Common.Int.{pos}
use gitlab_elt.Metrics.{
  Call, record_sync_run, record_gitlab_request, record_raw_event_ingested, record_transform_result,
  record_last_successful_sync, set_projects_monitored, Sample, grown_by, observed, set_to, unix,
}
use gitlab_elt.Metrics.Registry.{not_positive}

-- The samples of a call, as docs/OBSERVABILITY.md lists the metrics with their labels: a run and a
-- request count once and give their duration, and an ingestion of nothing gives none.
abbrev pub samples_of : Call → List Sample
samples_of (record_sync_run stage status duration) =
    record {
      name = "gitlab_elt_sync_duration_seconds";
      labels = ("stage", stage) ∷ [];
      value = observed duration;
    }
    ∷ record {
      name = "gitlab_elt_sync_runs_total";
      labels = ("stage", stage) ∷ ("status", status) ∷ [];
      value = grown_by 1;
    }
    ∷ []
samples_of (record_gitlab_request endpoint status duration) =
    record {
      name = "gitlab_elt_gitlab_request_duration_seconds";
      labels = ("endpoint", endpoint) ∷ [];
      value = observed duration;
    }
    ∷ record {
      name = "gitlab_elt_gitlab_requests_total";
      labels = ("endpoint", endpoint) ∷ ("status", status) ∷ [];
      value = grown_by 1;
    }
    ∷ []
samples_of (record_raw_event_ingested project_id event_type count) =
    if not_positive count
    then []
    else record {
      name = "gitlab_elt_raw_events_ingested_total";
      labels = ("project_id", project_id) ∷ ("event_type", event_type) ∷ [];
      value = grown_by count;
    }
      ∷ []
samples_of (record_transform_result project_id event_type status) =
    record {
      name = "gitlab_elt_transform_results_total";
      labels = ("project_id", project_id) ∷ ("event_type", event_type) ∷ ("status", status) ∷ [];
      value = grown_by 1;
    }
    ∷ []
samples_of (record_last_successful_sync project_id stage ts) =
    record {
      name = "gitlab_elt_last_successful_sync_timestamp";
      labels = ("project_id", project_id) ∷ ("stage", stage) ∷ [];
      value = set_to (unix ts);
    }
    ∷ []
samples_of (set_projects_monitored n) =
    record { name = "gitlab_elt_projects_monitored"; labels = []; value = set_to (pos n) } ∷ []

-- The samples of a run, the latest first.
abbrev pub all_samples : List Call → List Sample
all_samples [] = []
all_samples (call ∷ calls) = all_samples calls ++ samples_of call
