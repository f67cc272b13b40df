-- ===== src/Transformer/Assignees.antt =====
-- internal/transformer/assignees.go: the assignee history of an issue. The functions that change a
-- `*AssigneeHistory` return the new history beside their result.
pub mod Types
pub mod Parse
pub mod Invariant
pub mod Laws
pub use Types.*
use gitlab_elt.Common.{
  ℕ, String, Bool, true, false, not, ◌&&◌, ◌||◌, Option, none, some, List, [], ◌∷◌, ◌++◌, ◌==◌,
  string_eq, if◌then◌else◌, contains, any, ltb,
}
use gitlab_elt.Common.Int.{ℤ, pos, negsuc, sub_ℕ, quot}

abbrev pub empty : AssigneeHistory
empty = record { current = []; history = [] }

-- `Sub` stops at the bounds of an `int64` of nanoseconds, which are these seconds and a part of one.
abbrev saturated : ℤ → ℤ
saturated (pos n) = pos (if ltb 9_223_372_036 n then 9_223_372_036 else n)
saturated (negsuc n) = negsuc (if ltb 9_223_372_035 n then 9_223_372_035 else n)

-- `int64(to.Sub(from).Seconds())`, on milliseconds.
abbrev pub seconds_between : ℕ → ℕ → ℤ
seconds_between from to = saturated (quot (sub_ℕ to from) 1000)

abbrev is_none : {A : Type 0} → Option A → Bool
is_none none = true
is_none (some a) = false

-- The test of the two loops over the history: an entry of the user that is still open.
abbrev pub is_open : String → AssigneeHistoryEntry → Bool
is_open username e = e.username == username && is_none e.unassigned_at

abbrev opened : String → ℕ → AssigneeHistoryEntry
opened username at = record {
  username = username;
  assigned_at = at;
  unassigned_at = none;
  duration_seconds = none;
}

unfoldable pub handle_assigned : AssigneeHistory → String → ℕ → AssigneeHistory × Bool
handle_assigned h username assigned_at =
    let already_assigned = contains username h.current in
    let current' = if already_assigned then h.current else h.current ++ (username ∷ []) in
    if any (is_open username) h.history
    then (record h { current = current' }, not already_assigned)
    else (
      record { current = current'; history = h.history ++ (opened username assigned_at ∷ []) },
      true,
    )

-- The loop that builds `newCurrent`.
unfoldable pub remove : String → List String → List String
remove username [] = []
remove username (c ∷ cs) = let rest = remove username cs in if c == username then rest else c ∷ rest

abbrev closed : ℕ → AssigneeHistoryEntry → AssigneeHistoryEntry
closed at e = record e {
  unassigned_at = some at;
  duration_seconds = some (seconds_between e.assigned_at at);
}

-- The loop that closes the first open entry of the user, and ends there.
unfoldable pub close_first : String → ℕ → List AssigneeHistoryEntry → List AssigneeHistoryEntry
close_first username at [] = []
close_first username at (e ∷ es) =
    if is_open username e then closed at e ∷ es else e ∷ close_first username at es

unfoldable pub handle_unassigned : AssigneeHistory → String → ℕ → AssigneeHistory × Bool
unfolding remove close_first
handle_unassigned h username unassigned_at = (
  record {
    current = remove username h.current;
    history = close_first username unassigned_at h.history;
  },
  contains username h.current || any (is_open username) h.history,
)

unfoldable pub apply_assignee_change : AssigneeHistory → AssigneeChange → ℕ → AssigneeHistory × Bool
apply_assignee_change h change timestamp =
    if change.action == "assigned"
    then handle_assigned h change.username timestamp
    else if change.action == "unassigned"
    then handle_unassigned h change.username timestamp
    else (h, false)

-- The loop of `processAssigneeChanges` (service.go) over the changes of one note.
unfoldable pub apply_changes :
    List AssigneeChange → ℕ → AssigneeHistory × Bool → AssigneeHistory × Bool
apply_changes [] timestamp acc = acc
apply_changes (c ∷ cs) timestamp (h, modified) =
    let (h', changed) = apply_assignee_change h c timestamp in
    apply_changes cs timestamp (h', changed || modified)

-- What the first entry of the user says: an entry with no duration counts up to `now`.
unfoldable pub calculate_assignee_duration : List AssigneeHistoryEntry → String → ℕ → ℤ
calculate_assignee_duration [] username now = pos 0
calculate_assignee_duration (e ∷ es) username now =
    let rest = calculate_assignee_duration es username now in
    if e.username == username
    then elim e.duration_seconds [ some d ↦ d | none ↦ seconds_between e.assigned_at now ]
    else rest
