-- ===== src/Discovery/Silent.antt =====
-- The Silver tables of issues under a discovery (internal/discovery/service.go).
use gitlab_elt.Common.{arith}
use gitlab_elt.Gitlab.{list_group_projects}
use gitlab_elt.Repository.{Db, statement, now_utc, record_metric}
use gitlab_elt.Repository.Projects.{get_project, upsert_raw_project, upsert_project}
use gitlab_elt.Repository.Silent.{SameSilver, SameSilver-IsFrame, same_tables-SameSilver}
use gitlab_elt.Discovery.{Service, run}
use gitlab_elt.Discovery.Frame.{KeepsCalls, run-Keeps}

module _ (s : Service) where
  calls_keep_silver : KeepsCalls s SameSilver
  unfolding record_metric now_utc list_group_projects get_project upsert_raw_project upsert_project
      statement
  calls_keep_silver = record {
    frame = SameSilver-IsFrame;
    now = record { holds = λ d. same_tables-SameSilver d _ (ground arith) };
    metric = λ m. record { holds = λ d. same_tables-SameSilver d _ (ground arith) };
    projects = λ g. record { holds = λ d. same_tables-SameSilver d _ (ground arith) };
    project = λ id. record { holds = λ d. same_tables-SameSilver d _ (ground arith) };
    upsert_raw = λ p. record { holds = λ d. same_tables-SameSilver d _ (ground arith) };
    upsert = λ p. record { holds = λ d. same_tables-SameSilver d _ (ground arith) };
  }

  pub run-SameSilver : (d : Db) → SameSilver d (run s d).1
  run-SameSilver = run-Keeps s SameSilver calls_keep_silver
