-- ===== src/Domain.antt =====
-- internal/domain/models.go: the values of the GitLab API that the worker reads. A Go `int`, `int32`
-- or `int64` is its bit pattern as a natural number; a time is the milliseconds since year 1, the
-- precision of the API's timestamps.
use gitlab_elt.Common.{ℕ, ◌+◌, ◌-◌, ◌%◌, ◌^◌, String, Bool, ◌&&◌, List, ltb, if◌then◌else◌}

-- The conversion `int32(n)`.
abbrev pub int32 : ℕ → ℕ
int32 n = n % 2 ^ 32

-- The conversion `int(n)` of an `int32`, which repeats the sign bit.
abbrev pub int_of_int32 : ℕ → ℕ
int_of_int32 n = if ltb n (2 ^ 31) then n else n + (2 ^ 64 - 2 ^ 32)

-- An `int64` that is positive.
abbrev pub positive_int64 : ℕ → Bool
positive_int64 n = ltb 0 n && ltb n (2 ^ 63)

pub record GitlabProject : Type 0 where
  pub id : ℕ
  pub name : String
  pub path_with_namespace : String

pub record GitlabIssue : Type 0 where
  pub id : ℕ
  pub iid : ℕ
  pub project_id : ℕ
  pub title : String
  pub state : String
  pub labels : List String
  pub created_at : ℕ
  pub updated_at : ℕ

pub record User : Type 0 where
  pub id : ℕ
  pub username : String
  pub name : String

pub record Label : Type 0 where
  pub id : ℕ
  pub name : String

pub record GitlabLabelEvent : Type 0 where
  pub id : ℕ
  pub user : User
  pub action : String
  pub label : Label
  pub created_at : ℕ
  pub resource_type : String

pub record GitlabNote : Type 0 where
  pub id : ℕ
  pub body : String
  pub author : User
  pub created_at : ℕ
  pub system : Bool
