-- ===== src/Transformer/EdgeCases.antt =====
-- internal/transformer/edge_cases.go, and `determineCanonicalState` of service.go.
pub mod Laws
use gitlab_elt.Common.{
  ℕ, ◌+◌, ◌%◌, ◌^◌, ◌*◌, String, Bool, true, false, Option, none, some, ◌&&◌, ◌==◌, string_eq,
  if◌then◌else◌,
}
use gitlab_elt.Common.Int.{ℤ, pos, sub_ℕ, ltb_ℤ}
use gitlab_elt.Text.{TextLib}
use gitlab_elt.Mapper.{Mapper, LabelType, state_label, metadata_label, unknown_label, map_label}
use gitlab_elt.Repository.{IssueEvent}

-- 15 minutes, in milliseconds.
abbrev pub nervous_finger_threshold : ℤ
nervous_finger_threshold = pos 900_000

-- `currentTime.Sub(lastEvent.EventTimestamp.Time)`. The saturation of `Sub` at 292 years keeps every
-- comparison with the threshold.
abbrev pub elapsed : ℕ → ℕ → ℤ
elapsed from to = sub_ℕ to from

-- A nil `lastEvent` is `none`.
unfoldable pub detect_nervous_finger : Option IssueEvent → String → ℕ → Bool
detect_nervous_finger none current_state current_time = false
detect_nervous_finger (some last_event) current_state current_time =
    if last_event.mapped_canonical_state == current_state
    then false
    else if last_event.mapped_canonical_state == "BACKLOG"
    then false
    else ltb_ℤ (elapsed last_event.event_timestamp current_time) nervous_finger_threshold

abbrev false_movement : String → String × LabelType → Bool
false_movement last_state (new_state, state_label) = last_state == new_state
false_movement last_state (new_state, metadata_label) = false
false_movement last_state (new_state, unknown_label) = false

unfoldable pub detect_false_movement : TextLib → Mapper → String → String → Bool
detect_false_movement lib m last_state new_label =
    if last_state == "" then false else false_movement last_state (map_label lib m new_label)

-- The field `Int32` of a `pgtype.Int4`: 0 for NULL.
abbrev pub int32_or_zero : Option ℕ → ℕ
int32_or_zero none = 0
int32_or_zero (some n) = n

-- `int32` addition, on bit patterns.
abbrev pub add_int32 : ℕ → ℕ → ℕ
add_int32 a b = (a + b) % 2 ^ 32

unfoldable pub calculate_cycle_count : Option IssueEvent → String → ℕ
calculate_cycle_count none new_state = 0
calculate_cycle_count (some last_event) new_state =
    let base_count = int32_or_zero last_event.cycle_count in
    if last_event.mapped_canonical_state == "QA_REVIEW" && new_state == "IN_PROGRESS"
    then add_int32 base_count 1
    else base_count

abbrev state_of : Bool → String × LabelType → String
state_of is_add (state, state_label) = if is_add then state else "UNKNOWN"
state_of is_add (state, metadata_label) = ""
state_of is_add (state, unknown_label) = "UNKNOWN"

unfoldable pub determine_canonical_state : TextLib → Mapper → String → String → String → String
determine_canonical_state lib m action label_added label_removed =
    let label = if action == "add" then label_added else label_removed in
    if label == "" then "" else state_of (action == "add") (map_label lib m label)
