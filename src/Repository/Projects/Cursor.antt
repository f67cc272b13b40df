-- ===== src/Repository/Projects/Cursor.antt =====
-- The two copies of a project's cursor (internal/repository/projects.sql.go, raw_projects.sql.go).
use gitlab_elt.Common.{
  ℕ, true, ◌&&◌, Option, none, some, List, [], ◌∷◌, ◌==◌, ◌≡◌, nat_eq, arith, ==→≡, find?, any,
  if◌then◌else◌, Bool-cases, inl, inr,
}
use gitlab_elt.Repository.Tables.{RawProject, Project}
use gitlab_elt.Repository.Connection.{Db}
use gitlab_elt.Repository.Projects.{
  update_rows, is_raw_project, is_project, is_matched, sync_matched, sync_rows,
}

abbrev pub raw_cursor_of : Option RawProject → Option ℕ
raw_cursor_of none = none
raw_cursor_of (some r) = r.last_synced_at

abbrev pub cursor_of : Option Project → Option ℕ
cursor_of none = none
cursor_of (some p) = p.last_synced_at

-- The cursor in the Bronze table and the one in the Silver table; `none` for no row too.
abbrev pub cursors : ℕ → Db → Option ℕ × Option ℕ
cursors id d = (
  raw_cursor_of (find? (is_raw_project id) d.raw_projects),
  cursor_of (find? (is_project id) d.projects),
)

raw_cursor-update :
    (id j : ℕ) (at : Option ℕ) (rs : List RawProject)
    → raw_cursor_of (
        find?
          (is_raw_project j)
          (update_rows (is_raw_project id) (λ r. record r { last_synced_at = at }) rs))
      ≡ (if j == id && any (is_raw_project j) rs
          then at
          else raw_cursor_of (find? (is_raw_project j) rs))
raw_cursor-update id j at [] = ground arith
raw_cursor-update id j at (r ∷ rs) = ground (arith, raw_cursor-update id j at rs)

cursor-update :
    (id j : ℕ) (at : Option ℕ) (ps : List Project)
    → cursor_of (
        find?
          (is_project j)
          (update_rows (is_project id) (λ p. record p { last_synced_at = at }) ps))
      ≡ (if j == id && any (is_project j) ps then at else cursor_of (find? (is_project j) ps))
cursor-update id j at [] = ground arith
cursor-update id j at (p ∷ ps) = ground (arith, cursor-update id j at ps)

pub cursors-matched :
    (id j : ℕ) (at : Option ℕ) (d : Db)
    → is_matched id d ≡ true
    → cursors j (sync_matched id at d).1 ≡ (if j == id then (at, at) else cursors j d)
cursors-matched id j at d m = elim (Bool-cases (j == id)) [
  | inl same ↦
      let matched : is_matched j d ≡ true = rw (==→≡ j id same) m in
      ground (arith, raw_cursor-update id j at d.raw_projects, cursor-update id j at d.projects)
  | inr other ↦
      ground (arith, raw_cursor-update id j at d.raw_projects, cursor-update id j at d.projects)
]

-- The statement that moves a project's cursor moves both copies to the same time, if both tables have
-- the project, and moves neither if one table lacks it. The cursors of other projects stay.
pub cursors-sync_rows :
    (id j : ℕ) (at : Option ℕ) (d : Db)
    → cursors j (sync_rows id at d).1
      ≡ (if j == id && is_matched id d then (at, at) else cursors j d)
cursors-sync_rows id j at d = ground (arith, cursors-matched id j at d)
