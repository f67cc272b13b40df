-- ===== src/Discovery.antt =====
-- internal/discovery/service.go: the projects of the configured groups. The traces and logs are left
-- out.
pub mod Unique
pub mod Frame
pub mod Cursors
pub mod Silent
use gitlab_elt.Common.{
  ℕ, suc, String, Bool, true, false, Option, none, some, List, [], ◌∷◌, ◌++◌, ◌==◌, nat_eq,
  contains, if◌then◌else◌,
}
use gitlab_elt.Domain.{GitlabProject, int32}
use gitlab_elt.Gitlab.{GitlabClient, list_group_projects}
use gitlab_elt.Json.{Codec}
use gitlab_elt.Repository.{
  Project, Env, Db, Err, Result, ok, err, no_rows, bad_marshal, Action, pure, raise, attempt,
  or_raise, last_successful_sync, projects_monitored, sync_run, now_utc, record_metric, ◌>>=◌, ◌>>◌,
}
use gitlab_elt.Repository.Projects.{
  UpsertRawProjectParams, UpsertProjectParams, get_project, upsert_raw_project, upsert_project,
}
use gitlab_elt.Sync.{epoch}

-- A nil `queries` is `false` in `has_queries`.
pub record Service : Type 0 where
  pub env : Env
  pub gitlab : GitlabClient
  pub codec : Codec
  pub has_queries : Bool
  pub group_ids : List ℕ

-- The ids that were seen, and the projects so far.
pub record Found : Type 0 where
  pub seen : List ℕ
  pub projects : List GitlabProject

abbrev pub nothing_found : Found
nothing_found = record { seen = []; projects = [] }

abbrev pub add_one : GitlabProject → Found → Found
add_one p f =
    if contains p.id f.seen
    then f
    else record { seen = p.id ∷ f.seen; projects = f.projects ++ (p ∷ []) }

-- The inner loop of `fetchAllGroupProjects`.
unfoldable pub add_unseen : List GitlabProject → Found → Found
add_unseen [] f = f
add_unseen (p ∷ ps) f = add_unseen ps (add_one p f)

abbrev pub cursor_or_epoch : Option ℕ → ℕ
cursor_or_epoch none = epoch
cursor_or_epoch (some t) = t

abbrev pub raw_project_params : GitlabProject → String → UpsertRawProjectParams
raw_project_params p raw_meta = record {
  id = int32 p.id;
  name = p.name;
  path = p.path_with_namespace;
  raw_metadata = raw_meta;
  last_synced_at = some epoch;
}

abbrev pub project_params : GitlabProject → ℕ → UpsertProjectParams
project_params p at = record {
  id = int32 p.id;
  name = p.name;
  path = p.path_with_namespace;
  last_synced_at = some at;
}

module _ (s : Service) where
  -- The outer loop: the first group that cannot be listed ends it.
  unfoldable pub fetch_groups : List ℕ → Found → Action Found
  fetch_groups [] f = pure f
  fetch_groups (group_id ∷ group_ids) f = do
    projects ← list_group_projects s.gitlab group_id
    fetch_groups group_ids (add_unseen projects f)

  unfoldable pub fetch_all_group_projects : Action (List GitlabProject)
  fetch_all_group_projects = do f ← fetch_groups s.group_ids nothing_found; pure f.projects

  -- The cursor of the Silver row for the upsert: any error but a missing row is returned.
  unfoldable pub silver_last_synced : Result Project → Action ℕ
  silver_last_synced (ok p) = pure (cursor_or_epoch p.last_synced_at)
  silver_last_synced (err no_rows) = pure epoch
  silver_last_synced (err e) = raise e

  unfoldable pub persist_project : GitlabProject → Action (Unit {0})
  persist_project p = do
    raw_meta ← or_raise (s.codec.encode_project p) bad_marshal
    existing ← attempt (get_project s.env (int32 p.id))
    at ← silver_last_synced existing
    upsert_raw_project s.env (raw_project_params p raw_meta)
    upsert_project s.env (project_params p at)
    pure tt

  abbrev count_persisted : Result (Unit {0}) → ℕ → ℕ
  count_persisted (ok _) n = suc n
  count_persisted (err _) n = n

  abbrev failed_before : Result (Unit {0}) → Bool → Bool
  failed_before (ok _) b = b
  failed_before (err _) b = true

  -- The metric of a project that was persisted, at the time the clock shows then. The clock is read
  -- only where there is a recorder.
  abbrev pub after_persist : GitlabProject → Result (Unit {0}) → Action (Unit {0})
  after_persist p (err _) = pure tt
  after_persist p (ok _) =
      if s.env.has_metrics
      then (do now ← now_utc s.env; record_metric s.env (last_successful_sync p.id "discovery" now))
      else pure tt

  -- The loop over the projects: how many were persisted, and whether one failed.
  unfoldable pub persist_projects : List GitlabProject → Db → (ℕ × Bool) × Db
  persist_projects [] d = ((0, false), d)
  persist_projects (p ∷ ps) d =
      let (r, d₁) = persist_project p d in
      let d₂ = (after_persist p r d₁).1 in
      let ((n, failed), d₃) = persist_projects ps d₂ in
      ((count_persisted r n, failed_before r failed), d₃)

  -- The result of the run and the status of its metric: projects that fail do not fail the run.
  unfoldable pub run_fetched : Result (List GitlabProject) × Db → (Result (Unit {0}) × String) × Db
  run_fetched (err e, d) = ((err e, "error"), d)
  run_fetched (ok ps, d) =
      if s.has_queries
      then (let ((n, failed), d') = persist_projects ps d in
          (
            (ok tt, if failed then "error" else "success"),
            (record_metric s.env (projects_monitored n) d').1,
          ))
      else ((ok tt, "success"), d)

  unfoldable pub run : Action (Unit {0})
  run d =
      let ((r, status), d') = run_fetched (fetch_all_group_projects d) in
      (r, (record_metric s.env (sync_run "discovery" status) d').1)
