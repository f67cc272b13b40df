-- ===== src/Repository/Latest.antt =====
-- `GetLastIssueEvent` (internal/repository/issue_events.sql.go): which event the query gives.
use gitlab_elt.Common.{
  ℕ, ◌≤◌, Bool, true, false, not, ◌&&◌, Option, none, some, List, [], ◌∷◌, ◌==◌, ◌≡◌, ◌⊎◌, inl, inr,
  refl, nat_eq, if◌then◌else◌, any, All, ltb, arith, Bool-cases,
}
use gitlab_elt.Repository.Tables.{IssueEvent}
use gitlab_elt.Repository.Silver.{last_event, later}

abbrev In : IssueEvent → List IssueEvent → Type 0
In e [] = ⊥
In e (f ∷ fs) = (f ≡ e) ⊎ In e fs

-- An event of the issue that is no noise.
abbrev pub counts : ℕ → IssueEvent → Bool
counts issue_id e = e.issue_id == issue_id && not e.is_noise

-- None of the events that count is later than `e`.
abbrev pub NoneLater : ℕ → IssueEvent → List IssueEvent → Type 0
NoneLater issue_id e =
    All (λ f. (counts issue_id f && ltb e.event_timestamp f.event_timestamp) ≡ false)

abbrev pub IsLatest : ℕ → List IssueEvent → Option IssueEvent → Type 0
IsLatest issue_id es none = any (counts issue_id) es ≡ false
IsLatest issue_id es (some e) = In e es × (counts issue_id e ≡ true) × NoneLater issue_id e es

NoneLater-le :
    (issue_id : ℕ) (e f : IssueEvent) (es : List IssueEvent)
    → e.event_timestamp ≤ f.event_timestamp
    → NoneLater issue_id e es
    → NoneLater issue_id f es
NoneLater-le issue_id e f [] le h = tt
NoneLater-le issue_id e f (g ∷ gs) le h = (ground arith, NoneLater-le issue_id e f gs le h.1)

none_counts :
    (issue_id : ℕ) (e : IssueEvent) (es : List IssueEvent)
    → any (counts issue_id) es ≡ false
    → NoneLater issue_id e es
none_counts issue_id e [] h = tt
none_counts issue_id e (f ∷ fs) h = (ground arith, none_counts issue_id e fs (ground arith))

chosen-IsLatest :
    (issue_id : ℕ) (e f : IssueEvent) (es : List IssueEvent) (is_later : Bool)
    → ltb e.event_timestamp f.event_timestamp ≡ is_later
    → counts issue_id e ≡ true
    → IsLatest issue_id es (some f)
    → IsLatest issue_id (e ∷ es) (some (if is_later then f else e))
chosen-IsLatest issue_id e f es true h c (there, cf, none_later) =
    (inr there, cf, (ground arith, none_later))
chosen-IsLatest issue_id e f es false h c (there, cf, none_later) =
    (inl refl, c, (ground arith, NoneLater-le issue_id f e es (ground arith) none_later))

counted-IsLatest :
    (issue_id : ℕ) (e : IssueEvent) (es : List IssueEvent) (rest : Option IssueEvent)
    → counts issue_id e ≡ true
    → IsLatest issue_id es rest
    → IsLatest issue_id (e ∷ es) (some (later e rest))
counted-IsLatest issue_id e es none c h = (inl refl, c, (ground arith, none_counts issue_id e es h))
counted-IsLatest issue_id e es (some f) c h =
    chosen-IsLatest issue_id e f es (ltb e.event_timestamp f.event_timestamp) refl c h

skipped-IsLatest :
    (issue_id : ℕ) (e : IssueEvent) (es : List IssueEvent) (rest : Option IssueEvent)
    → counts issue_id e ≡ false
    → IsLatest issue_id es rest
    → IsLatest issue_id (e ∷ es) rest
skipped-IsLatest issue_id e es none c h = ground arith
skipped-IsLatest issue_id e es (some f) c (there, cf, none_later) =
    (inr there, cf, (ground arith, none_later))

-- The query gives an event of the issue that is no noise and has no later one beside it in the table,
-- and gives none only if the issue has no such event.
pub last_event-IsLatest :
    (issue_id : ℕ) (es : List IssueEvent) → IsLatest issue_id es (last_event issue_id es)
unfolding last_event
last_event-IsLatest issue_id [] = refl
last_event-IsLatest issue_id (e ∷ es) =
    let ih = last_event-IsLatest issue_id es in
    elim (Bool-cases (counts issue_id e)) [
      | inl c ↦ rw c (counted-IsLatest issue_id e es (last_event issue_id es) c ih)
      | inr c ↦ rw c (skipped-IsLatest issue_id e es (last_event issue_id es) c ih)
    ]
