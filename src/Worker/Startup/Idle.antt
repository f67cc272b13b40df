-- ===== src/Worker/Startup/Idle.antt =====
-- A worker that is configured with projects and no group (cmd/worker/main.go).
use gitlab_elt.Common.{
  ℕ, zero, suc, String, true, Option, none, some, [], take, Bool-cases, nat_eq, ◌⊎◌, inl, inr, ◌≡◌,
  refl, ap, subst, sym, ◌∙◌, arith,
}
use gitlab_elt.Repository.{
  Db, ok, err, Err, Env, Metric, statement, advance, record_metric, db_failure,
}
use gitlab_elt.Repository.Bronze.{list_unprocessed_raw_events}
use gitlab_elt.Repository.Projects.{list_raw_projects}
use gitlab_elt.Discovery.{
  Service as DiscoveryService, fetch_groups, fetch_all_group_projects, persist_projects,
  run_fetched, run as run_discovery,
}
use gitlab_elt.Sync.{Extractor, extract_projects, extract_listed, extract_all}
use gitlab_elt.Transformer.Service.{Service}
use gitlab_elt.Transformer.Batch.{
  transform_listed, transform_batch, transform_rounds, next_round, transform_all,
}
use gitlab_elt.Transformer.Batch.Termination.{waiting}
use gitlab_elt.Scheduler.{Job, Cron, peak_job, off_peak_job, discovery_job}
use gitlab_elt.Scheduler.Started.{jobs}
use gitlab_elt.Config.Types.{Config}
use gitlab_elt.Config.Telemetry.{Floats}
use gitlab_elt.Gitlab.Endpoints.{new_client}
use gitlab_elt.Worker.{Worker, transformed, transform, sync_func, discover_func}
use gitlab_elt.Worker.Startup.{Outside, running, worker, scheduler, start_worker}
use gitlab_elt.Worker.Startup.Ready.{Untouched, start_worker-IsReady}
use gitlab_elt.Worker.Startup.Lifetime.{In, Fires, rests, fires}

untouched : (d : Db) → Untouched d d
untouched d = ground arith

Untouched-trans : (d e f : Db) → Untouched d e → Untouched e f → Untouched d f
Untouched-trans d e f h k = record {
  raw_projects = k.raw_projects ∙ h.raw_projects;
  raw_events = k.raw_events ∙ h.raw_events;
  projects = k.projects ∙ h.projects;
  issues = k.issues ∙ h.issues;
  issue_events = k.issue_events ∙ h.issue_events;
  issue_comments = k.issue_comments ∙ h.issue_comments;
}

advance-Untouched : (d : Db) → Untouched d (advance d)
advance-Untouched d = ground arith

record_metric-Untouched :
    (env : Env) (m : Metric) (d e : Db) → Untouched d e → Untouched d (record_metric env m e).1
unfolding record_metric
record_metric-Untouched env m d e h = ground arith

run-Untouched :
    (s : DiscoveryService) (d : Db) → s.group_ids ≡ [] → Untouched d (run_discovery s d).1
unfolding run_discovery run_fetched record_metric
run-Untouched s d no_groups =
    let nothing : fetch_all_group_projects s d ≡ (ok [], d) =
      unfold fetch_all_group_projects fetch_groups in rw no_groups refl in
    rw nothing (unfold persist_projects in ground arith)

list_raw_projects_nil :
    (env : Env) (d : Db)
    → env.by_name [] ≡ []
    → d.raw_projects ≡ []
    → (list_raw_projects env d ≡ (err db_failure, advance d))
      ⊎ (list_raw_projects env d ≡ (ok [], advance d))
unfolding list_raw_projects statement
list_raw_projects_nil env d ordered none_there = elim (Bool-cases (env.fails d.tick)) [
  | inl broken ↦ inl (rw broken refl)
  | inr works ↦ inr (rw (works, none_there, ordered) refl)
]

extract_all-Untouched :
    (x : Extractor) (d : Db)
    → x.env.by_name [] ≡ []
    → d.raw_projects ≡ []
    → Untouched d (extract_all x d).1
unfolding extract_all extract_listed extract_projects record_metric
extract_all-Untouched x d ordered none_there =
    elim (list_raw_projects_nil x.env d ordered none_there) [
      | inl broken ↦ rw broken (ground arith)
      | inr works ↦ rw works (ground arith)
    ]

take-nil : {A : Type 0} (n : ℕ) → take {A = A} n [] ≡ []
take-nil zero = refl
take-nil (suc n) = refl

-- A batch of no events ends the loop.
transform_batch_nil :
    (s : Service) (d : Db)
    → d.raw_events ≡ []
    → (o : Option Err) × (transform_batch s d ≡ ((0, o), advance d))
unfolding transform_batch transform_listed list_unprocessed_raw_events statement
transform_batch_nil s d none_there = elim (Bool-cases (s.env.fails d.tick)) [
  | inl broken ↦ (some db_failure, rw broken refl)
  | inr works ↦ (none, rw (works, none_there, take-nil s.batch_size) refl)
]

ended :
    (total : ℕ) (o : Option Err) (d : Db) (rest : Option (ℕ × Option Err) × Db)
    → (next_round total ((0, o), d) rest).1 ≡ d
ended total none d rest = refl
ended total (some e) d rest = refl

transform_all-Untouched :
    (s : Service) (d : Db) (fuel : ℕ)
    → d.raw_events ≡ []
    → Untouched d (transform_all s (suc fuel) d).1
unfolding transform_all transform_rounds
transform_all-Untouched s d fuel none_there =
    let (o, empty) = transform_batch_nil s d none_there in
    let rounds : (transform_rounds s (suc fuel) 0 d).1 ≡ advance d =
      rw empty (ended 0 o (advance d) _) in
    record_metric-Untouched s.env _ d (transform_rounds s (suc fuel) 0 d).1
      (subst (Untouched d) (sym rounds) (advance-Untouched d))

transformed-Untouched :
    (d : Db) (r : Option (ℕ × Option Err) × Db) → Untouched d r.1 → Untouched d (transformed r).1
transformed-Untouched d (none, d') h = h
transformed-Untouched d (some (n, none), d') h = h
transformed-Untouched d (some (n, some e), d') h = h

module _ (w : Worker) where
  transform-Untouched : (d : Db) → d.raw_events ≡ [] → Untouched d (transform w d).1
  unfolding transform
  transform-Untouched d none_there =
      transformed-Untouched d (transform_all w.transformer (suc (waiting d.raw_events)) d)
        (transform_all-Untouched w.transformer d (waiting d.raw_events) none_there)

  sync-Untouched :
      (d : Db)
      → w.extractor.env.by_name [] ≡ []
      → d.raw_projects ≡ []
      → d.raw_events ≡ []
      → Untouched d (sync_func w d).1
  unfolding sync_func
  sync-Untouched d ordered no_projects no_events =
      let after = (extract_all w.extractor d).1 in
      let first = extract_all-Untouched w.extractor d ordered no_projects in
      Untouched-trans d after (transform w after).1 first
        (transform-Untouched after (first.raw_events ∙ no_events))

module _ (out : Outside) (cfg : Config) (w : Worker) where
  -- What the idle worker stands on: no group, and nothing that an earlier run has left.
  record IsIdle (e : Db) : Type 0 where
    no_groups : w.discovery.group_ids ≡ []
    ordered : w.extractor.env.by_name [] ≡ []
    no_projects : e.raw_projects ≡ []
    no_events : e.raw_events ≡ []

  entry-Untouched :
      (e : Db) (hour : ℕ) (entry : String × Job)
      → IsIdle e
      → In entry (jobs (scheduler out cfg w))
      → Untouched e (entry.1 hour e)
  unfolding peak_job off_peak_job discovery_job scheduler discover_func
  entry-Untouched e hour entry idle (inl same) =
      subst (λ (x : String × Job). Untouched e (x.1 hour e)) (sym same)
        (ground
          (arith, sync-Untouched w e idle.ordered idle.no_projects idle.no_events, untouched e))
  entry-Untouched e hour entry idle (inr (inl same)) =
      subst (λ (x : String × Job). Untouched e (x.1 hour e)) (sym same)
        (ground
          (arith, sync-Untouched w e idle.ordered idle.no_projects idle.no_events, untouched e))
  entry-Untouched e hour entry idle (inr (inr (inl same))) =
      subst (λ (x : String × Job). Untouched e (x.1 hour e)) (sym same)
        (run-Untouched w.discovery e idle.no_groups)
  entry-Untouched e hour entry idle (inr (inr (inr h))) = absurd h

  Fires-IsIdle :
      (cron : Cron) {e f : Db}
      → cron ≡ record { entries = jobs (scheduler out cfg w); running = true }
      → IsIdle e
      → Fires cron e f
      → Untouched e f
  Fires-IsIdle cron {e} scheduled idle rests = untouched e
  Fires-IsIdle cron {e} scheduled idle (fires g f hour entry before among at) =
      let so_far = Fires-IsIdle cron scheduled idle before in
      let still : IsIdle g = record {
        no_groups = idle.no_groups;
        ordered = idle.ordered;
        no_projects = so_far.raw_projects ∙ idle.no_projects;
        no_events = so_far.raw_events ∙ idle.no_events;
      } in
      let listed : In entry (jobs (scheduler out cfg w)) =
        subst (λ (c : Cron). In entry c.entries) scheduled among in
      subst (Untouched e) at
        (Untouched-trans e g (entry.1 hour g) so_far (entry-Untouched g hour entry still listed))

-- A worker whose configuration names projects but no group does nothing: if it starts on a database
-- with no project and no raw event, then whatever jobs its cron fires, no table of projects, raw
-- events, issues, issue events or comments ever changes. The order of the query's rows is taken to
-- give none of none.
pub Fires-Untouched :
    (out : Outside) (floats : Floats) (d : Db) (cfg : Config) (w : Worker) (cron : Cron) {e f : Db}
    → start_worker out floats d ≡ running cfg w cron e
    → cfg.gitlab.group_ids ≡ []
    → out.env.by_name [] ≡ []
    → d.raw_projects ≡ []
    → d.raw_events ≡ []
    → Fires cron e f
    → Untouched d f
unfolding worker new_client scheduler
Fires-Untouched out floats d cfg w cron {e} {f} started no_groups ordered no_projects no_events
      run =
    let ready = start_worker-IsReady out floats d cfg w cron e started in
    let idle : IsIdle out cfg w e = record {
      no_groups = ap (λ (v : Worker). v.discovery.group_ids) ready.wired ∙ no_groups;
      ordered = ap (λ (v : Worker). v.extractor.env.by_name []) ready.wired ∙ ordered;
      no_projects = ready.untouched.raw_projects ∙ no_projects;
      no_events = ready.untouched.raw_events ∙ no_events;
    } in
    Untouched-trans d e f ready.untouched (Fires-IsIdle out cfg w cron ready.scheduled idle run)
