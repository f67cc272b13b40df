-- ===== src/Discovery/Cursors.antt =====
-- The cursors of the projects under a discovery (internal/discovery/service.go).
use gitlab_elt.Common.{refl, arith}
use gitlab_elt.Gitlab.{list_group_projects}
use gitlab_elt.Repository.{Db, statement, now_utc, record_metric}
use gitlab_elt.Repository.Projects.{get_project}
use gitlab_elt.Repository.Projects.Forward.{
  Forward, Forward-IsFrame, SameProjects-Forward, upsert_raw_project-Forward,
  upsert_project-Forward,
}
use gitlab_elt.Discovery.{Service, run}
use gitlab_elt.Discovery.Frame.{KeepsCalls, run-Keeps}

module _ (s : Service) where
  calls_keep_cursors : KeepsCalls s Forward
  unfolding record_metric now_utc list_group_projects get_project statement
  calls_keep_cursors = record {
    frame = Forward-IsFrame;
    now = record { holds = λ d. SameProjects-Forward d _ (refl, refl) };
    metric = λ m. record { holds = λ d. SameProjects-Forward d _ (ground arith) };
    projects = λ g. record { holds = λ d. SameProjects-Forward d _ (refl, refl) };
    project = λ id. record { holds = λ d. SameProjects-Forward d _ (ground arith) };
    upsert_raw = upsert_raw_project-Forward s.env;
    upsert = upsert_project-Forward s.env;
  }

  -- A discovery, whatever GitLab answers and whichever statements fail, sets no cursor back: not the
  -- Bronze one, though it upserts each project with the start of 1970, and not the Silver one.
  pub run-Forward : (d : Db) → Forward d (run s d).1
  run-Forward = run-Keeps s Forward calls_keep_cursors
