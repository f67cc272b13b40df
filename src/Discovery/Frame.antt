-- ===== src/Discovery/Frame.antt =====
-- Relations between the database before and after a discovery (internal/discovery/service.go), from
-- the calls that it makes to the whole run.
use gitlab_elt.Common.{ℕ, List, [], ◌∷◌, arith}
use gitlab_elt.Domain.{GitlabProject, int32}
use gitlab_elt.Gitlab.{list_group_projects}
use gitlab_elt.Repository.{
  Project, Db, Result, ok, err, no_rows, db_failure, bad_json, bad_marshal, api_failure,
  cursor_rows, projects_failed, not_configured, Metric, projects_monitored, sync_run, now_utc,
  record_metric,
}
use gitlab_elt.Repository.Frame.{
  IsFrame, Keeps, >>=-Keeps, pure-Keeps, raise-Keeps, or_raise-Keeps, attempt-Keeps, if-Keeps,
}
use gitlab_elt.Repository.Projects.{
  UpsertRawProjectParams, UpsertProjectParams, get_project, upsert_raw_project, upsert_project,
}
use gitlab_elt.Discovery.{
  Service, Found, nothing_found, add_unseen, fetch_groups, fetch_all_group_projects,
  silver_last_synced, cursor_or_epoch, raw_project_params, project_params, persist_project,
  after_persist, persist_projects, run_fetched, run,
}

-- A relation that each call of the discovery keeps.
pub record KeepsCalls (s : Service) (R : Db → Db → Type 0) : Type 0 where
  pub frame : IsFrame R
  pub now : Keeps R (now_utc s.env)
  pub metric : (m : Metric) → Keeps R (record_metric s.env m)
  pub projects : (g : ℕ) → Keeps R (list_group_projects s.gitlab g)
  pub project : (id : ℕ) → Keeps R (get_project s.env id)
  pub upsert_raw : (p : UpsertRawProjectParams) → Keeps R (upsert_raw_project s.env p)
  pub upsert : (p : UpsertProjectParams) → Keeps R (upsert_project s.env p)

module _ (s : Service) (R : Db → Db → Type 0) (k : KeepsCalls s R) where
  fetch-Keeps : (gs : List ℕ) (f : Found) → Keeps R (fetch_groups s gs f)
  unfolding fetch_groups
  fetch-Keeps [] f = pure-Keeps k.frame f
  fetch-Keeps (g ∷ gs) f = >>=-Keeps k.frame (k.projects g) (λ ps. fetch-Keeps gs (add_unseen ps f))

  fetched-Keeps : Keeps R (fetch_all_group_projects s)
  unfolding fetch_all_group_projects
  fetched-Keeps =
      >>=-Keeps k.frame (fetch-Keeps s.group_ids nothing_found) (λ f. pure-Keeps k.frame f.projects)

  silver-Keeps : (r : Result Project) → Keeps R (silver_last_synced s r)
  unfolding silver_last_synced
  silver-Keeps (ok p) = pure-Keeps k.frame (cursor_or_epoch p.last_synced_at)
  silver-Keeps (err no_rows) = pure-Keeps k.frame _
  silver-Keeps (err db_failure) = raise-Keeps k.frame ℕ _
  silver-Keeps (err bad_json) = raise-Keeps k.frame ℕ _
  silver-Keeps (err bad_marshal) = raise-Keeps k.frame ℕ _
  silver-Keeps (err api_failure) = raise-Keeps k.frame ℕ _
  silver-Keeps (err (cursor_rows n)) = raise-Keeps k.frame ℕ _
  silver-Keeps (err (projects_failed n)) = raise-Keeps k.frame ℕ _
  silver-Keeps (err not_configured) = raise-Keeps k.frame ℕ _

  persist-Keeps : (p : GitlabProject) → Keeps R (persist_project s p)
  unfolding persist_project
  persist-Keeps p =
      >>=-Keeps k.frame (or_raise-Keeps k.frame (s.codec.encode_project p) bad_marshal) (λ meta.
        >>=-Keeps k.frame (attempt-Keeps k.frame (k.project (int32 p.id))) (λ existing.
          >>=-Keeps k.frame (silver-Keeps existing) (λ at.
            >>=-Keeps k.frame (k.upsert_raw (raw_project_params p meta)) (λ _.
              >>=-Keeps k.frame (k.upsert (project_params p at)) (λ _. pure-Keeps k.frame tt)))))

  after-Keeps : (p : GitlabProject) (r : Result Unit) → Keeps R (after_persist s p r)
  after-Keeps p (err e) = pure-Keeps k.frame tt
  after-Keeps p (ok _) =
      if-Keeps k.frame s.env.has_metrics (>>=-Keeps k.frame k.now (λ now. k.metric _))
        (pure-Keeps k.frame tt)

  projects-Keeps : (ps : List GitlabProject) (d : Db) → R d (persist_projects s ps d).1
  unfolding persist_projects
  projects-Keeps [] d = k.frame.same d
  projects-Keeps (p ∷ ps) d =
      let (r, d₁) = persist_project s p d in
      let d₂ = (after_persist s p r d₁).1 in
      let first =
        k.frame.then_also d d₁ d₂ ((persist-Keeps p).holds d) ((after-Keeps p r).holds d₁) in
      k.frame.then_also d d₂ (persist_projects s ps d₂).1 first (projects-Keeps ps d₂)

  monitored-Keeps : (ps : List GitlabProject) (d : Db) → R d (run_fetched s (ok ps, d)).1
  unfolding run_fetched
  monitored-Keeps ps d =
      let ((n, failed), d') = persist_projects s ps d in
      let m = projects_monitored n in
      ground (
        arith,
        k.frame.same d,
        k.frame.then_also d d' (record_metric s.env m d').1 (projects-Keeps ps d)
            ((k.metric m).holds d'),
      )

  run_fetched-Keeps : (r : Result (List GitlabProject) × Db) → R r.1 (run_fetched s r).1
  unfolding run_fetched
  run_fetched-Keeps (err e, d) = k.frame.same d
  run_fetched-Keeps (ok ps, d) = monitored-Keeps ps d

  pub run-Keeps : (d : Db) → R d (run s d).1
  unfolding run
  run-Keeps d =
      let fetched = fetch_all_group_projects s d in
      let ((r, status), d') = run_fetched s fetched in
      let m = sync_run "discovery" status in
      k.frame.then_also d d' (record_metric s.env m d').1
        (k.frame.then_also d fetched.1 d' (fetched-Keeps.holds d) (run_fetched-Keeps fetched))
        ((k.metric m).holds d')
