-- ===== src/Repository/Silver/Issues.antt =====
-- internal/repository/issues.sql.go.
use gitlab_elt.Common.{
  ℕ, suc, String, Bool, ◌&&◌, Option, none, some, List, [], ◌∷◌, ◌++◌, if◌then◌else◌, ◌==◌, nat_eq,
  string_eq, find?,
}
use gitlab_elt.Repository.Tables.{Issue}
use gitlab_elt.Repository.Connection.{Env, Action, ok, statement}
use gitlab_elt.Repository.Silver.Rows.{one_row}

pub record UpsertIssueParams : Type 0 where
  pub gitlab_issue_id : ℕ
  pub project_id : ℕ
  pub iid : ℕ
  pub title : Option String
  pub current_canonical_state : Option String
  pub metadata_labels : String
  pub assignees : String
  pub gitlab_created_at : ℕ

abbrev pub is_issue : ℕ → ℕ → Issue → Bool
is_issue project_id iid i = i.project_id == project_id && i.iid == iid

-- An `UPDATE` of the rows that pass a test.
abbrev pub update_issues : (Issue → Bool) → (Issue → Issue) → List Issue → List Issue
update_issues test f [] = []
update_issues test f (i ∷ is) = (if test i then f i else i) ∷ update_issues test f is

abbrev pub new_issue : ℕ → UpsertIssueParams → Issue
new_issue id p = record {
  id = id;
  gitlab_issue_id = p.gitlab_issue_id;
  project_id = p.project_id;
  iid = p.iid;
  title = p.title;
  current_canonical_state = p.current_canonical_state;
  metadata_labels = p.metadata_labels;
  assignees = p.assignees;
  gitlab_created_at = p.gitlab_created_at;
}

-- `ON CONFLICT (project_id, iid) DO UPDATE`: all but the time of creation is overwritten.
abbrev pub overwrite_issue : UpsertIssueParams → Issue → Issue
overwrite_issue p i = record i {
  gitlab_issue_id = p.gitlab_issue_id;
  title = p.title;
  current_canonical_state = p.current_canonical_state;
  metadata_labels = p.metadata_labels;
  assignees = p.assignees;
}

module _ (env : Env) where
  unfoldable pub get_issue_by_id : ℕ → Action Issue
  get_issue_by_id id = statement env (λ d. (one_row (find? (λ i. i.id == id) d.issues), d))

  unfoldable pub get_issue_by_project_and_iid : ℕ → ℕ → Action Issue
  get_issue_by_project_and_iid project_id iid =
      statement env (λ d. (one_row (find? (is_issue project_id iid) d.issues), d))

  -- The conflict is on the project and the number. The partial unique index of migration 000005 on the
  -- ids of GitLab above 0 has no clause here: a statement that breaks it is one that fails.
  unfoldable pub upsert_issue : UpsertIssueParams → Action Issue
  upsert_issue p = statement env (λ d. elim (find? (is_issue p.project_id p.iid) d.issues) [
    | none ↦ (
      ok (new_issue (suc d.issue_seq) p),
      record d {
        issue_seq = suc d.issue_seq;
        issues = d.issues ++ (new_issue (suc d.issue_seq) p ∷ []);
      },
    )
    | some i ↦ (
      ok (overwrite_issue p i),
      record d {
        issue_seq = suc d.issue_seq;
        issues = update_issues (is_issue p.project_id p.iid) (overwrite_issue p) d.issues;
      },
    )
  ])

  unfoldable pub update_issue_assignees : String → ℕ → Action (Unit {0})
  update_issue_assignees assignees id = statement env (λ d. (
    ok tt,
    record d {
      issues = update_issues (λ i. i.id == id) (λ i. record i { assignees = assignees }) d.issues;
    },
  ))

  unfoldable pub update_issue_canonical_state : Option String → ℕ → Action (Unit {0})
  update_issue_canonical_state state id = statement env (λ d. (
    ok tt,
    record d {
      issues =
          update_issues (λ i. i.id == id) (λ i. record i { current_canonical_state = state })
            d.issues;
    },
  ))

  unfoldable pub update_issue_metadata : String → ℕ → Action (Unit {0})
  update_issue_metadata metadata id = statement env (λ d. (
    ok tt,
    record d {
      issues =
          update_issues (λ i. i.id == id) (λ i. record i { metadata_labels = metadata }) d.issues;
    },
  ))
