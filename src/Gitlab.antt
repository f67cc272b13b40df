-- ===== src/Gitlab.antt =====
-- internal/domain/interfaces.go, `GitlabClient`: the calls that the extractor and the discovery make.
-- What a call answers depends on when it is made.
pub mod Client
pub mod Endpoints
use gitlab_elt.Common.{ℕ, List}
use gitlab_elt.Domain.{GitlabProject, GitlabIssue, GitlabLabelEvent, GitlabNote}
use gitlab_elt.Repository.{Result, Action, advance}

pub record GitlabClient : Type 0 where
  pub group_projects : ℕ → ℕ → Result (List GitlabProject)
  pub issues : ℕ → ℕ → ℕ → Result (List GitlabIssue)
  pub label_events : ℕ → ℕ → ℕ → Result (List GitlabLabelEvent)
  pub notes : ℕ → ℕ → ℕ → Result (List GitlabNote)

module _ (g : GitlabClient) where
  unfoldable pub list_group_projects : ℕ → Action (List GitlabProject)
  list_group_projects group_id d = (g.group_projects d.tick group_id, advance d)

  unfoldable pub list_issues : ℕ → ℕ → Action (List GitlabIssue)
  list_issues project_id updated_after d = (g.issues d.tick project_id updated_after, advance d)

  unfoldable pub list_label_events : ℕ → ℕ → Action (List GitlabLabelEvent)
  list_label_events project_id issue_iid d = (g.label_events d.tick project_id issue_iid, advance d)

  unfoldable pub list_notes : ℕ → ℕ → Action (List GitlabNote)
  list_notes project_id issue_iid d = (g.notes d.tick project_id issue_iid, advance d)
