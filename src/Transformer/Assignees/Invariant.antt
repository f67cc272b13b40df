-- ===== src/Transformer/Assignees/Invariant.antt =====
-- What holds of an assignee history between two changes.
use gitlab_elt.Common.{
  ℕ, ◌+◌, ◌≤◌, String, Bool, true, false, ◌||◌, Option, none, some, List, [], ◌∷◌, ◌++◌, ◌==◌, ◌≡◌,
  refl, string_eq, eq_iff, if◌then◌else◌, contains, any, count_if, All, All-append, arith,
  Bool-cases, inl, inr,
}
use gitlab_elt.Transformer.Assignees.{
  AssigneeHistory, AssigneeHistoryEntry, AssigneeChange, empty, is_open, opened, seconds_between,
  handle_assigned, handle_unassigned, remove, close_first, apply_assignee_change, apply_changes,
}

-- How often a user stands among the current assignees.
abbrev pub occurrences : String → List String → ℕ
occurrences u = count_if (λ c. c == u)

-- The duration of an entry: none while it is open, the seconds between its times once it is closed.
abbrev pub DurationOf : AssigneeHistoryEntry → Option ℕ → Type 0
DurationOf e none = e.duration_seconds ≡ none
DurationOf e (some to) = e.duration_seconds ≡ some (seconds_between e.assigned_at to)

abbrev pub IsTimed : AssigneeHistoryEntry → Type 0
IsTimed e = DurationOf e e.unassigned_at

-- No user is current twice, every current user has exactly one open entry and nobody else has one,
-- and the durations agree with the times.
pub record IsValid (h : AssigneeHistory) : Type 0 where
  pub once : (u : String) → occurrences u h.current ≤ 1
  pub matched : (u : String) → count_if (is_open u) h.history ≡ occurrences u h.current
  pub timed : All IsTimed h.history

pub empty-IsValid : IsValid empty
empty-IsValid = record { once = λ u. omega arith; matched = λ u. refl; timed = tt }

occurrences-append :
    (u v : String) (cs : List String)
    → occurrences v (cs ++ (u ∷ [])) ≡ occurrences v cs + (if u == v then 1 else 0)
occurrences-append u v [] = ground arith
occurrences-append u v (c ∷ cs) = ground (arith, occurrences-append u v cs)

count_open-append :
    (u v : String) (at : ℕ) (es : List AssigneeHistoryEntry)
    → count_if (is_open v) (es ++ (opened u at ∷ []))
      ≡ count_if (is_open v) es + (if u == v then 1 else 0)
count_open-append u v at [] = ground arith
count_open-append u v at (e ∷ es) = ground (arith, count_open-append u v at es)

contains-occurrences :
    (u : String) (cs : List String) → contains u cs ≡ false → occurrences u cs ≡ 0
contains-occurrences u [] h = refl
contains-occurrences u (c ∷ cs) h = ground (arith, contains-occurrences u cs)

contains-pos : (u : String) (cs : List String) → contains u cs ≡ true → 1 ≤ occurrences u cs
contains-pos u [] h = cc
contains-pos u (c ∷ cs) h = ground (arith, contains-pos u cs)

any-open :
    (u : String) (es : List AssigneeHistoryEntry)
    → any (is_open u) es ≡ false
    → count_if (is_open u) es ≡ 0
any-open u [] h = refl
any-open u (e ∷ es) h = ground (arith, any-open u es)

any-pos :
    (u : String) (es : List AssigneeHistoryEntry)
    → any (is_open u) es ≡ true
    → 1 ≤ count_if (is_open u) es
any-pos u [] h = cc
any-pos u (e ∷ es) h = ground (arith, any-pos u es)

occurrences-remove :
    (u v : String) (cs : List String)
    → occurrences v (remove u cs) ≡ (if u == v then 0 else occurrences v cs)
unfolding remove
occurrences-remove u v [] = ground arith
occurrences-remove u v (c ∷ cs) =
    ground (arith, occurrences-remove u v cs, eq_iff c u, eq_iff c v, eq_iff u v)

count_open-close :
    (u v : String) (at : ℕ) (es : List AssigneeHistoryEntry)
    → count_if (is_open u) es ≤ 1
    → count_if (is_open v) (close_first u at es) ≡ (if u == v then 0 else count_if (is_open v) es)
unfolding close_first
count_open-close u v at [] h = ground arith
count_open-close u v at (e ∷ es) h =
    ground (arith, count_open-close u v at es, eq_iff e.username u, eq_iff e.username v, eq_iff u v)

close_first-IsTimed :
    (u : String) (at : ℕ) (es : List AssigneeHistoryEntry)
    → All IsTimed es
    → All IsTimed (close_first u at es)
unfolding close_first
close_first-IsTimed u at [] h = tt
close_first-IsTimed u at (e ∷ es) h = ground (arith, close_first-IsTimed u at es h.1)

module _ (h : AssigneeHistory) (u : String) (at : ℕ) (valid : IsValid h) where
  -- In a valid history a user is current exactly if an entry of the user is open.
  open_iff : any (is_open u) h.history ≡ contains u h.current
  open_iff = ground (
    arith,
    valid.matched u,
    any-open u h.history,
    any-pos u h.history,
    contains-pos u h.current,
    contains-occurrences u h.current,
  )

  handle_assigned_once : (v : String) → occurrences v (handle_assigned h u at).0.current ≤ 1
  unfolding handle_assigned
  handle_assigned_once v = ground (
    arith,
    valid.once v,
    eq_iff u v,
    occurrences-append u v h.current,
    contains-occurrences u h.current,
  )

  handle_assigned_matched :
      (v : String)
      → count_if (is_open v) (handle_assigned h u at).0.history
        ≡ occurrences v (handle_assigned h u at).0.current
  unfolding handle_assigned
  handle_assigned_matched v = ground (
    arith,
    valid.matched v,
    open_iff,
    occurrences-append u v h.current,
    count_open-append u v at h.history,
  )

  handle_assigned-IsTimed : All IsTimed (handle_assigned h u at).0.history
  unfolding handle_assigned
  handle_assigned-IsTimed = elim (Bool-cases (any (is_open u) h.history)) [
    | inl old ↦ rw old valid.timed
    | inr fresh ↦ rw fresh (All-append IsTimed h.history _ valid.timed (refl, tt))
  ]

  pub handle_assigned-IsValid : IsValid (handle_assigned h u at).0
  handle_assigned-IsValid = record {
    once = handle_assigned_once;
    matched = handle_assigned_matched;
    timed = handle_assigned-IsTimed;
  }

  pub handle_unassigned-IsValid : IsValid (handle_unassigned h u at).0
  unfolding handle_unassigned
  handle_unassigned-IsValid = record {
    once = λ v. ground (arith, valid.once v, occurrences-remove u v h.current);
    matched = λ v. ground (
      arith,
      valid.matched u,
      valid.matched v,
      valid.once u,
      occurrences-remove u v h.current,
      count_open-close u v at h.history,
    );
    timed = close_first-IsTimed u at h.history valid.timed;
  }

apply_assignee_change-IsValid :
    (h : AssigneeHistory) (c : AssigneeChange) (at : ℕ)
    → IsValid h
    → IsValid (apply_assignee_change h c at).0
unfolding apply_assignee_change
apply_assignee_change-IsValid h c at valid = elim (Bool-cases (c.action == "assigned")) [
  | inl a ↦ rw a (handle_assigned-IsValid h c.username at valid)
  | inr n ↦ elim (Bool-cases (c.action == "unassigned")) [
    | inl b ↦ rw (n, b) (handle_unassigned-IsValid h c.username at valid)
    | inr o ↦ rw (n, o) valid
  ]
]

-- The changes of a note keep the history valid, whatever the changes and the time of the note.
pub apply_changes-IsValid :
    (cs : List AssigneeChange) (at : ℕ) (h : AssigneeHistory) (modified : Bool)
    → IsValid h
    → IsValid (apply_changes cs at (h, modified)).0
unfolding apply_changes
apply_changes-IsValid [] at h modified valid = valid
apply_changes-IsValid (c ∷ cs) at h modified valid =
    let (h', changed) = apply_assignee_change h c at in
    apply_changes-IsValid cs at h' (changed || modified)
      (apply_assignee_change-IsValid h c at valid)
