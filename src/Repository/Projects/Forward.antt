-- ===== src/Repository/Projects/Forward.antt =====
-- The cursors of the projects under the upserts (internal/repository/projects.sql.go,
-- raw_projects.sql.go).
use gitlab_elt.Common.{
  ℕ, ◌≤◌, Option, none, some, List, [], ◌∷◌, ◌++◌, ◌≡◌, refl, nat_eq, arith, find?,
}
use gitlab_elt.Repository.Tables.{RawProject, Project}
use gitlab_elt.Repository.Connection.{Db, Env, statement}
use gitlab_elt.Repository.Frame.{IsFrame, Keeps}
use gitlab_elt.Repository.Projects.{
  UpsertRawProjectParams, UpsertProjectParams, greatest, new_raw_project, overwrite_raw_project,
  new_project, overwrite_project, update_rows, is_raw_project, is_project, upsert_raw_project,
  upsert_project,
}
use gitlab_elt.Repository.Projects.Cursor.{raw_cursor_of, cursor_of, cursors}

-- No cursor is before every time.
abbrev pub AtLeast : Option ℕ → Option ℕ → Type 0
AtLeast none b = Unit
AtLeast (some a) none = ⊥
AtLeast (some a) (some b) = a ≤ b

AtLeast-refl : (a : Option ℕ) → AtLeast a a
AtLeast-refl none = tt
AtLeast-refl (some a) = omega arith

AtLeast-trans : (a b c : Option ℕ) → AtLeast a b → AtLeast b c → AtLeast a c
AtLeast-trans none b c h k = tt
AtLeast-trans (some a) none c h k = absurd h
AtLeast-trans (some a) (some b) none h k = absurd k
AtLeast-trans (some a) (some b) (some c) h k = omega (arith, h, k)

AtLeast-greatest : (a b : Option ℕ) → AtLeast a (greatest a b)
AtLeast-greatest none b = tt
AtLeast-greatest (some a) none = omega arith
AtLeast-greatest (some a) (some b) = ground arith

-- Neither copy of the cursor of any project is set back.
pub record Forward (d e : Db) : Type 0 where
  pub bronze : (id : ℕ) → AtLeast (cursors id d).0 (cursors id e).0
  pub silver : (id : ℕ) → AtLeast (cursors id d).1 (cursors id e).1

pub Forward-IsFrame : IsFrame Forward
Forward-IsFrame = record {
  same = λ d. record {
    bronze = λ id. AtLeast-refl (cursors id d).0;
    silver = λ id. AtLeast-refl (cursors id d).1;
  };
  then_also = λ d e f g h. record {
    bronze = λ id.
        AtLeast-trans (cursors id d).0 (cursors id e).0 (cursors id f).0 (g.bronze id)
          (h.bronze id);
    silver = λ id.
        AtLeast-trans (cursors id d).1 (cursors id e).1 (cursors id f).1 (g.silver id)
          (h.silver id);
  };
}

pub SameProjects-Forward :
    (d e : Db) → (e.raw_projects ≡ d.raw_projects) × (e.projects ≡ d.projects) → Forward d e
SameProjects-Forward d e (raws, projects) = record {
  bronze = λ id. rw raws (AtLeast-refl (cursors id d).0);
  silver = λ id. rw projects (AtLeast-refl (cursors id d).1);
}

raw_cursor-overwrite :
    (id : ℕ) (p : UpsertRawProjectParams) (rs : List RawProject)
    → raw_cursor_of
        (find? (is_raw_project id) (update_rows (is_raw_project p.id) (overwrite_raw_project p) rs))
      ≡ raw_cursor_of (find? (is_raw_project id) rs)
raw_cursor-overwrite id p [] = refl
raw_cursor-overwrite id p (r ∷ rs) = ground (arith, raw_cursor-overwrite id p rs)

raw_cursor-append :
    (id : ℕ) (r : RawProject) (rs : List RawProject)
    → AtLeast
        (raw_cursor_of (find? (is_raw_project id) rs))
        (raw_cursor_of (find? (is_raw_project id) (rs ++ (r ∷ []))))
raw_cursor-append id r [] = tt
raw_cursor-append id r (s ∷ ss) =
    ground (arith, raw_cursor-append id r ss, AtLeast-refl s.last_synced_at)

cursor-overwrite :
    (id : ℕ) (p : UpsertProjectParams) (ps : List Project)
    → AtLeast
        (cursor_of (find? (is_project id) ps))
        (cursor_of (find? (is_project id) (update_rows (is_project p.id) (overwrite_project p) ps)))
cursor-overwrite id p [] = tt
cursor-overwrite id p (q ∷ qs) = ground (
  arith,
  cursor-overwrite id p qs,
  AtLeast-refl q.last_synced_at,
  AtLeast-greatest q.last_synced_at p.last_synced_at,
)

cursor-append :
    (id : ℕ) (p : Project) (ps : List Project)
    → AtLeast
        (cursor_of (find? (is_project id) ps))
        (cursor_of (find? (is_project id) (ps ++ (p ∷ []))))
cursor-append id p [] = tt
cursor-append id p (q ∷ qs) = ground (arith, cursor-append id p qs, AtLeast-refl q.last_synced_at)

module _ (env : Env) where
  pub upsert_raw_project-Forward :
      (p : UpsertRawProjectParams) → Keeps Forward (upsert_raw_project env p)
  unfolding upsert_raw_project statement
  upsert_raw_project-Forward p = record {
    holds = λ d. record {
      bronze = λ id. ground (
        arith,
        AtLeast-refl (cursors id d).0,
        raw_cursor-overwrite id p d.raw_projects,
        raw_cursor-append id (new_raw_project p) d.raw_projects,
      );
      silver = λ id. ground (arith, AtLeast-refl (cursors id d).1);
    };
  }

  pub upsert_project-Forward : (p : UpsertProjectParams) → Keeps Forward (upsert_project env p)
  unfolding upsert_project statement
  upsert_project-Forward p = record {
    holds = λ d. record {
      bronze = λ id. ground (arith, AtLeast-refl (cursors id d).0);
      silver = λ id. ground (
        arith,
        AtLeast-refl (cursors id d).1,
        cursor-overwrite id p d.projects,
        cursor-append id (new_project p) d.projects,
      );
    };
  }
