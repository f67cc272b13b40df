-- ===== src/Transformer/Assignees/Types.antt =====
-- internal/transformer/assignees.go: the types.
use gitlab_elt.Common.{ℕ, String, Option, List}
use gitlab_elt.Common.Int.{ℤ}

pub record AssigneeHistoryEntry : Type 0 where
  pub username : String
  pub assigned_at : ℕ
  pub unassigned_at : Option ℕ
  pub duration_seconds : Option ℤ

pub record AssigneeHistory : Type 0 where
  pub current : List String
  pub history : List AssigneeHistoryEntry

pub record AssigneeChange : Type 0 where
  pub username : String
  pub action : String
