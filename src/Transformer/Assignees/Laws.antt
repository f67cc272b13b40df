-- ===== src/Transformer/Assignees/Laws.antt =====
-- What one change of internal/transformer/assignees.go does to an assignee history.
use gitlab_elt.Common.{
  ℕ, String, Bool, true, false, not, ◌&&◌, ◌||◌, some, List, [], ◌∷◌, ◌++◌, ◌==◌, ◌≡◌, refl, ap,
  ◌∙◌, string_eq, eq_iff, if◌then◌else◌, contains, any, arith,
}
use gitlab_elt.Transformer.Assignees.{
  AssigneeHistory, AssigneeHistoryEntry, AssigneeChange, is_open, opened, closed, seconds_between,
  handle_assigned, handle_unassigned, remove, close_first, apply_assignee_change, apply_changes,
}

pub contains-append :
    (u v : String) (cs : List String) → contains v (cs ++ (u ∷ [])) ≡ (contains v cs || u == v)
contains-append u v [] = ground arith
contains-append u v (c ∷ cs) = ground (arith, contains-append u v cs)

pub contains-remove :
    (u v : String) (cs : List String) → contains v (remove u cs) ≡ (contains v cs && not (u == v))
unfolding remove
contains-remove u v [] = refl
contains-remove u v (c ∷ cs) =
    ground (arith, contains-remove u v cs, eq_iff c u, eq_iff c v, eq_iff u v)

pub remove-absent : (u : String) (cs : List String) → contains u cs ≡ false → remove u cs ≡ cs
unfolding remove
remove-absent u [] h = refl
remove-absent u (c ∷ cs) h = ground (arith, remove-absent u cs)

pub close_first-absent :
    (u : String) (at : ℕ) (es : List AssigneeHistoryEntry)
    → any (is_open u) es ≡ false
    → close_first u at es ≡ es
unfolding close_first
close_first-absent u at [] h = refl
close_first-absent u at (e ∷ es) h = ground (arith, close_first-absent u at es)

any-opened :
    (u : String) (at : ℕ) (es : List AssigneeHistoryEntry)
    → any (is_open u) (es ++ (opened u at ∷ [])) ≡ true
any-opened u at [] = ground (arith, eq_iff u u)
any-opened u at (e ∷ es) = ground (arith, any-opened u at es)

close_first-opened :
    (u : String) (from to : ℕ) (es : List AssigneeHistoryEntry)
    → any (is_open u) es ≡ false
    → close_first u to (es ++ (opened u from ∷ [])) ≡ es ++ (closed to (opened u from) ∷ [])
unfolding close_first
close_first-opened u from to [] h = ground (arith, eq_iff u u)
close_first-opened u from to (e ∷ es) h = ground (arith, close_first-opened u from to es)

-- The user is assigned after an assignment, whatever was before, and nobody else is affected.
pub contains-handle_assigned :
    (h : AssigneeHistory) (u v : String) (at : ℕ)
    → contains v (handle_assigned h u at).0.current ≡ (u == v || contains v h.current)
unfolding handle_assigned
contains-handle_assigned h u v at = ground (arith, contains-append u v h.current, eq_iff u v)

pub contains-handle_unassigned :
    (h : AssigneeHistory) (u v : String) (at : ℕ)
    → contains v (handle_unassigned h u at).0.current ≡ (not (u == v) && contains v h.current)
unfolding handle_unassigned
contains-handle_unassigned h u v at = ground (arith, contains-remove u v h.current)

-- Whether `v` is assigned after a list of changes: the last change that names `v` and whose action
-- is one of the two decides, and with none it is as before.
abbrev pub says : String → AssigneeChange → Bool → Bool
says v c before =
    if c.username == v
    then (if c.action == "assigned"
        then true
        else if c.action == "unassigned"
        then false
        else before)
    else before

abbrev pub assigned_after : String → List AssigneeChange → Bool → Bool
assigned_after v [] before = before
assigned_after v (c ∷ cs) before = assigned_after v cs (says v c before)

contains-apply_assignee_change :
    (h : AssigneeHistory) (c : AssigneeChange) (v : String) (at : ℕ)
    → contains v (apply_assignee_change h c at).0.current ≡ says v c (contains v h.current)
unfolding apply_assignee_change
contains-apply_assignee_change h c v at = ground (
  arith,
  contains-handle_assigned h c.username v at,
  contains-handle_unassigned h c.username v at,
)

-- The current assignees after the changes of a note are those of the abstract view, in which each
-- user is assigned or not and the last change that names the user decides.
pub contains-apply_changes :
    (cs : List AssigneeChange) (at : ℕ) (h : AssigneeHistory) (modified : Bool) (v : String)
    → contains v (apply_changes cs at (h, modified)).0.current
      ≡ assigned_after v cs (contains v h.current)
unfolding apply_changes
contains-apply_changes [] at h modified v = refl
contains-apply_changes (c ∷ cs) at h modified v =
    let (h', changed) = apply_assignee_change h c at in
    contains-apply_changes cs at h' (changed || modified) v
    ∙ ap (assigned_after v cs) (contains-apply_assignee_change h c v at)

handle_assigned_unmodified :
    (h : AssigneeHistory) (u : String) (at : ℕ)
    → (handle_assigned h u at).1 ≡ false
    → (handle_assigned h u at).0 ≡ h
unfolding handle_assigned
handle_assigned_unmodified h u at e = ground arith

handle_unassigned_unmodified :
    (h : AssigneeHistory) (u : String) (at : ℕ)
    → (handle_unassigned h u at).1 ≡ false
    → (handle_unassigned h u at).0 ≡ h
unfolding handle_unassigned
handle_unassigned_unmodified h u at e =
    ground (arith, remove-absent u h.current, close_first-absent u at h.history)

change_unmodified :
    (h : AssigneeHistory) (c : AssigneeChange) (at : ℕ)
    → (apply_assignee_change h c at).1 ≡ false
    → (apply_assignee_change h c at).0 ≡ h
unfolding apply_assignee_change
change_unmodified h c at e = ground (
  arith,
  handle_assigned_unmodified h c.username at,
  handle_unassigned_unmodified h c.username at,
)

modified_before :
    (cs : List AssigneeChange) (at : ℕ) (h : AssigneeHistory) (modified : Bool)
    → (apply_changes cs at (h, modified)).1 ≡ false
    → modified ≡ false
unfolding apply_changes
modified_before [] at h modified e = e
modified_before (c ∷ cs) at h modified e =
    let (h', changed) = apply_assignee_change h c at in
    let both : (changed || modified) ≡ false = modified_before cs at h' (changed || modified) e in
    ground arith

-- When no change of a note reports a modification, the history is the one before the note, so the
-- update that the code then skips would have changed nothing.
pub apply_changes_unmodified :
    (cs : List AssigneeChange) (at : ℕ) (h : AssigneeHistory) (modified : Bool)
    → (apply_changes cs at (h, modified)).1 ≡ false
    → (apply_changes cs at (h, modified)).0 ≡ h
unfolding apply_changes
apply_changes_unmodified [] at h modified e = refl
apply_changes_unmodified (c ∷ cs) at h modified e =
    let (h', changed) = apply_assignee_change h c at in
    let both : (changed || modified) ≡ false = modified_before cs at h' (changed || modified) e in
    apply_changes_unmodified cs at h' (changed || modified) e
    ∙ change_unmodified h c at (ground arith)

-- Assigning a user a second time, at any time, changes nothing and reports no modification.
pub handle_assigned_again :
    (h : AssigneeHistory) (u : String) (at later : ℕ)
    → handle_assigned (handle_assigned h u at).0 u later ≡ ((handle_assigned h u at).0, false)
unfolding handle_assigned
handle_assigned_again h u at later =
    ground (arith, contains-append u u h.current, any-opened u at h.history, eq_iff u u)

-- A user with no open entry who is assigned and then unassigned leaves one closed entry behind, at
-- the end of the history, that holds both times and the seconds between them.
pub assigned-unassigned :
    (h : AssigneeHistory) (u : String) (from to : ℕ)
    → any (is_open u) h.history ≡ false
    → (handle_unassigned (handle_assigned h u from).0 u to).0.history
      ≡ h.history
        ++ (record {
          username = u;
          assigned_at = from;
          unassigned_at = some to;
          duration_seconds = some (seconds_between from to);
        }
            ∷ [])
unfolding handle_assigned handle_unassigned
assigned-unassigned h u from to fresh = rw fresh (close_first-opened u from to h.history fresh)
