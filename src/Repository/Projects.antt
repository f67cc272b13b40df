-- ===== src/Repository/Projects.antt =====
-- internal/repository/projects.sql.go and raw_projects.sql.go. The id is the primary key of both
-- tables.
pub mod Cursor
pub mod Forward
use gitlab_elt.Common.{
  ℕ, String, Bool, ◌&&◌, Option, none, some, List, [], ◌∷◌, ◌++◌, ◌==◌, nat_eq, find?, any,
  count_if, ltb, if◌then◌else◌,
}
use gitlab_elt.Repository.Tables.{RawProject, Project}
use gitlab_elt.Repository.Connection.{Db, Env, Action, ok, statement}
use gitlab_elt.Repository.Silver.{one_row}

pub record UpsertRawProjectParams : Type 0 where
  pub id : ℕ
  pub name : String
  pub path : String
  pub raw_metadata : String
  pub last_synced_at : Option ℕ

pub record UpsertProjectParams : Type 0 where
  pub id : ℕ
  pub name : String
  pub path : String
  pub last_synced_at : Option ℕ

pub record SyncProjectLastSyncedRow : Type 0 where
  pub raw_projects_updated : ℕ
  pub projects_updated : ℕ

-- `GREATEST` of two columns: a NULL is passed over.
abbrev pub greatest : Option ℕ → Option ℕ → Option ℕ
greatest none b = b
greatest (some a) none = some a
greatest (some a) (some b) = some (if ltb a b then b else a)

abbrev pub new_raw_project : UpsertRawProjectParams → RawProject
new_raw_project p = record {
  id = p.id;
  name = p.name;
  path = p.path;
  last_synced_at = p.last_synced_at;
  raw_metadata = p.raw_metadata;
}

-- A conflict keeps the cursor that is there.
abbrev pub overwrite_raw_project : UpsertRawProjectParams → RawProject → RawProject
overwrite_raw_project p r = record r { name = p.name; path = p.path; raw_metadata = p.raw_metadata }

abbrev pub new_project : UpsertProjectParams → Project
new_project p = record {
  id = p.id;
  name = p.name;
  path = p.path;
  last_synced_at = p.last_synced_at;
}

-- A conflict keeps the later cursor.
abbrev pub overwrite_project : UpsertProjectParams → Project → Project
overwrite_project p r = record r {
  name = p.name;
  path = p.path;
  last_synced_at = greatest r.last_synced_at p.last_synced_at;
}

-- An `UPDATE` of the rows that pass a test.
abbrev pub update_rows : {A : Type 0} → (A → Bool) → (A → A) → List A → List A
update_rows test f [] = []
update_rows test f (r ∷ rs) = (if test r then f r else r) ∷ update_rows test f rs

abbrev pub is_raw_project : ℕ → RawProject → Bool
is_raw_project id r = r.id == id

abbrev pub is_project : ℕ → Project → Bool
is_project id p = p.id == id

-- The join of the two tables has a row for the id.
abbrev pub is_matched : ℕ → Db → Bool
is_matched id d = any (is_project id) d.projects && any (is_raw_project id) d.raw_projects

abbrev pub sync_matched : ℕ → Option ℕ → Db → SyncProjectLastSyncedRow × Db
sync_matched id at d = (
  record {
    raw_projects_updated = count_if (is_raw_project id) d.raw_projects;
    projects_updated = count_if (is_project id) d.projects;
  },
  record d {
    raw_projects =
        update_rows (is_raw_project id) (λ r. record r { last_synced_at = at }) d.raw_projects;
    projects = update_rows (is_project id) (λ p. record p { last_synced_at = at }) d.projects;
  },
)

-- One statement changes both tables, or none if one of them lacks the project.
abbrev pub sync_rows : ℕ → Option ℕ → Db → SyncProjectLastSyncedRow × Db
sync_rows id at d =
    if is_matched id d
    then sync_matched id at d
    else (record { raw_projects_updated = 0; projects_updated = 0 }, d)

module _ (env : Env) where
  unfoldable pub get_project : ℕ → Action Project
  get_project id = statement env (λ d. (one_row (find? (is_project id) d.projects), d))

  unfoldable pub list_raw_projects : Action (List RawProject)
  list_raw_projects = statement env (λ d. (ok (env.by_name d.raw_projects), d))

  unfoldable pub upsert_raw_project : UpsertRawProjectParams → Action RawProject
  upsert_raw_project p = statement env (λ d. elim (find? (is_raw_project p.id) d.raw_projects) [
    | none ↦ (
      ok (new_raw_project p),
      record d { raw_projects = d.raw_projects ++ (new_raw_project p ∷ []) },
    )
    | some r ↦ (
      ok (overwrite_raw_project p r),
      record d {
        raw_projects = update_rows (is_raw_project p.id) (overwrite_raw_project p) d.raw_projects;
      },
    )
  ])

  unfoldable pub upsert_project : UpsertProjectParams → Action Project
  upsert_project p = statement env (λ d. elim (find? (is_project p.id) d.projects) [
    | none ↦ (ok (new_project p), record d { projects = d.projects ++ (new_project p ∷ []) })
    | some r ↦ (
      ok (overwrite_project p r),
      record d { projects = update_rows (is_project p.id) (overwrite_project p) d.projects },
    )
  ])

  unfoldable pub sync_project_last_synced : Option ℕ → ℕ → Action SyncProjectLastSyncedRow
  sync_project_last_synced at id =
      statement env (λ d. let (row, d') = sync_rows id at d in (ok row, d'))
