-- ===== src/Discovery/Unique.antt =====
-- How often `fetchAllGroupProjects` (internal/discovery/service.go) gives a project.
use gitlab_elt.Common.{
  ℕ, ◌+◌, Bool, false, ◌||◌, List, [], ◌∷◌, ◌++◌, ◌==◌, ◌≡◌, refl, subst, nat_eq, arith, any,
  count_if, contains, if◌then◌else◌, ==→≡, Bool-cases, inl, inr,
}
use gitlab_elt.Domain.{GitlabProject}
use gitlab_elt.Gitlab.{list_group_projects}
use gitlab_elt.Repository.{Db, Action, Result, ok, err, continue, pure, advance}
use gitlab_elt.Discovery.{
  Service, Found, nothing_found, add_one, add_unseen, fetch_groups, fetch_all_group_projects,
}

abbrev pub has_id : ℕ → GitlabProject → Bool
has_id id p = p.id == id

-- How often a project stands in a list.
abbrev pub copies : ℕ → List GitlabProject → ℕ
copies id = count_if (has_id id)

abbrev in_answer : ℕ → Result (List GitlabProject) → Bool
in_answer id (ok ps) = any (has_id id) ps
in_answer id (err _) = false

-- The ids that were seen are those of the projects, each of which stands there once.
abbrev IsSound : Found → ℕ → Type 0
IsSound f id = copies id f.projects ≡ (if contains id f.seen then 1 else 0)

copies-append :
    (id : ℕ) (p : GitlabProject) (ps : List GitlabProject)
    → copies id (ps ++ (p ∷ [])) ≡ copies id ps + (if p.id == id then 1 else 0)
copies-append id p [] = ground arith
copies-append id p (q ∷ qs) = ground (arith, copies-append id p qs)

new-IsSound :
    (id : ℕ) (p : GitlabProject) (f : Found)
    → contains p.id f.seen ≡ false
    → IsSound f id
    → IsSound (record { seen = p.id ∷ f.seen; projects = f.projects ++ (p ∷ []) }) id
new-IsSound id p f new h = elim (Bool-cases (p.id == id)) [
  | inl same ↦
      let unseen : contains id f.seen ≡ false = rw⁻¹ (==→≡ p.id id same) new in
      ground (arith, copies-append id p f.projects)
  | inr other ↦ ground (arith, copies-append id p f.projects)
]

add_one-IsSound : (id : ℕ) (p : GitlabProject) (f : Found) → IsSound f id → IsSound (add_one p f) id
add_one-IsSound id p f h = elim (Bool-cases (contains p.id f.seen)) [
  | inl old ↦ rw old h
  | inr new ↦ rw new (new-IsSound id p f new h)
]

add_unseen-IsSound :
    (id : ℕ) (ps : List GitlabProject) (f : Found) → IsSound f id → IsSound (add_unseen ps f) id
unfolding add_unseen
add_unseen-IsSound id [] f h = h
add_unseen-IsSound id (p ∷ ps) f h =
    add_unseen-IsSound id ps (add_one p f) (add_one-IsSound id p f h)

-- The ids that are seen after a list of projects.
add_one-seen :
    (id : ℕ) (p : GitlabProject) (f : Found)
    → contains id (add_one p f).seen ≡ (has_id id p || contains id f.seen)
add_one-seen id p f = elim (Bool-cases (p.id == id)) [
  | inl same ↦
      let as_seen : contains id f.seen ≡ contains p.id f.seen = rw (==→≡ p.id id same) refl in
      ground arith
  | inr other ↦ ground arith
]

add_unseen-seen :
    (id : ℕ) (ps : List GitlabProject) (f : Found)
    → contains id (add_unseen ps f).seen ≡ (any (has_id id) ps || contains id f.seen)
unfolding add_unseen
add_unseen-seen id [] f = refl
add_unseen-seen id (p ∷ ps) f =
    ground (arith, add_unseen-seen id ps (add_one p f), add_one-seen id p f)

-- The answers of GitLab to one round over the groups, as the calls give them.
abbrev pub listed_ids : (s : Service) → ℕ → List ℕ → Db → Bool
listed_ids s id [] d = false
listed_ids s id (g ∷ gs) d =
    in_answer id (s.gitlab.group_projects d.tick g) || listed_ids s id gs (advance d)

-- How often the project is found: once if it was seen, else not at all.
abbrev FoundOnce : ℕ → Bool → Result Found → Type 0
FoundOnce id seen (ok found) = copies id found.projects ≡ (if seen then 1 else 0)
FoundOnce id seen (err _) = Unit

module _ (s : Service) (id : ℕ) where
  answered-FoundOnce :
      (r : Result (List GitlabProject)) (rest : Bool) (f : Found) (d : Db)
      → (k : List GitlabProject → Action Found)
      → ((ps : List GitlabProject)
          → FoundOnce id (rest || contains id (add_unseen ps f).seen) (k ps d).0)
      → FoundOnce id ((in_answer id r || rest) || contains id f.seen) (continue (r, d) k).0
  answered-FoundOnce (err _) rest f d k h = tt
  answered-FoundOnce (ok ps) rest f d k h =
      let same_seen : (rest || contains id (add_unseen ps f).seen)
          ≡ ((any (has_id id) ps || rest) || contains id f.seen) =
        ground (arith, add_unseen-seen id ps f) in
      subst (λ seen. FoundOnce id seen (k ps d).0) same_seen (h ps)

  fetch_groups-FoundOnce :
      (group_ids : List ℕ) (f : Found) (d : Db)
      → IsSound f id
      → FoundOnce id
          (listed_ids s id group_ids d || contains id f.seen)
          (fetch_groups s group_ids f d).0
  unfolding fetch_groups list_group_projects
  fetch_groups-FoundOnce [] f d sound = sound
  fetch_groups-FoundOnce (g ∷ gs) f d sound =
      answered-FoundOnce (s.gitlab.group_projects d.tick g) (listed_ids s id gs (advance d)) f
        (advance d) (λ ps. fetch_groups s gs (add_unseen ps f))
        (λ ps.
          fetch_groups-FoundOnce gs (add_unseen ps f) (advance d)
            (add_unseen-IsSound id ps f sound))

abbrev ListedOnce : ℕ → Bool → Result (List GitlabProject) → Type 0
ListedOnce id listed (ok ps) = copies id ps ≡ (if listed then 1 else 0)
ListedOnce id listed (err _) = Unit

collected :
    (id : ℕ) (listed : Bool) (r : Result Found × Db)
    → FoundOnce id (listed || false) r.0
    → ListedOnce id listed (continue r (λ f. pure f.projects)).0
collected id listed (ok f, d) h = ground arith
collected id listed (err _, d) h = tt

-- If every group can be listed, the projects are each project of a group exactly once, by its id, and
-- no other, however many groups have it.
pub fetch_all_group_projects-ListedOnce :
    (s : Service) (id : ℕ) (d : Db) {ps : List GitlabProject}
    → (fetch_all_group_projects s d).0 ≡ ok ps
    → copies id ps ≡ (if listed_ids s id s.group_ids d then 1 else 0)
unfolding fetch_all_group_projects
fetch_all_group_projects-ListedOnce s id d {ps} h =
    let once =
      collected id (listed_ids s id s.group_ids d) (fetch_groups s s.group_ids nothing_found d)
        (fetch_groups-FoundOnce s id s.group_ids nothing_found d refl) in
    subst (ListedOnce id (listed_ids s id s.group_ids d)) h once
