-- ===== src/Transformer/EdgeCases/Laws.antt =====
-- What the detectors of internal/transformer/edge_cases.go decide.
use gitlab_elt.Common.{
  ℕ, ◌+◌, ◌%◌, ◌^◌, ◌<◌, String, Bool, true, false, some, List, [], ◌∷◌, ◌&&◌, ◌==◌, ◌≡◌, ◌≢◌, ◌↔◌,
  ap, nat_eq, string_eq, eq_iff, if◌then◌else◌, arith,
}
use gitlab_elt.Text.{TextLib}
use gitlab_elt.Mapper.{Mapper, LabelType, state_label, metadata_label, unknown_label, map_label}
use gitlab_elt.Mapper.Laws.{map_label-classify}
use gitlab_elt.Repository.{IssueEvent}
use gitlab_elt.Transformer.EdgeCases.{
  detect_nervous_finger, detect_false_movement, int32_or_zero, calculate_cycle_count,
  determine_canonical_state,
}

abbrev pub is_metadata : LabelType → Bool
is_metadata metadata_label = true
is_metadata state_label = false
is_metadata unknown_label = false

-- A transition is noise exactly if the state changes, the last state is not `BACKLOG`, and the new
-- event comes less than 15 minutes (900000 ms) after the last one, or before it.
pub nervous_finger_iff :
    (last : IssueEvent) (state : String) (time : ℕ)
    → (detect_nervous_finger (some last) state time ≡ true) ↔ (
        (last.mapped_canonical_state ≢ state)
        × (last.mapped_canonical_state ≢ "BACKLOG")
        × (time < last.event_timestamp + 900_000))
unfolding detect_nervous_finger
nervous_finger_iff last state time =
    ground (
      arith,
      eq_iff last.mapped_canonical_state state,
      eq_iff last.mapped_canonical_state "BACKLOG",
    )

-- A movement is false exactly if there was a state and the new label maps to that same state.
pub false_movement_iff :
    (lib : TextLib) (m : Mapper) (last_state label : String)
    → (detect_false_movement lib m last_state label ≡ true)
      ↔ ((last_state ≢ "") × (map_label lib m label ≡ (last_state, state_label)))
unfolding detect_false_movement
false_movement_iff lib m last_state label =
    ground (arith, eq_iff last_state "", eq_iff last_state (map_label lib m label).0)

-- Each event carries the cycle count computed from the event before it.
abbrev pub IsChained : IssueEvent → List IssueEvent → Type 0
IsChained e [] = Unit
IsChained e (f ∷ fs) =
    (f.cycle_count ≡ some (calculate_cycle_count (some e) f.mapped_canonical_state))
    × IsChained f fs

abbrev pub last_of : IssueEvent → List IssueEvent → IssueEvent
last_of e [] = e
last_of e (f ∷ fs) = last_of f fs

-- The rounds of rework: how often `IN_PROGRESS` follows directly on `QA_REVIEW`.
abbrev pub reworks : IssueEvent → List IssueEvent → ℕ
reworks e [] = 0
reworks e (f ∷ fs) =
    (if e.mapped_canonical_state == "QA_REVIEW" && f.mapped_canonical_state == "IN_PROGRESS"
      then 1
      else 0)
    + reworks f fs

next_count :
    (e : IssueEvent) (state : String)
    → int32_or_zero e.cycle_count < 2 ^ 32
    → (calculate_cycle_count (some e) state < 2 ^ 32)
      × (calculate_cycle_count (some e) state
          ≡ (int32_or_zero e.cycle_count
              + (if e.mapped_canonical_state == "QA_REVIEW" && state == "IN_PROGRESS"
                  then 1
                  else 0))
            % 2 ^ 32)
unfolding calculate_cycle_count
next_count e state small = ground arith

-- Along a chain of events the last cycle count is the first plus the number of returns from
-- `QA_REVIEW` to `IN_PROGRESS`, modulo the width of the column.
pub cycle_count-reworks :
    (e : IssueEvent) (fs : List IssueEvent)
    → int32_or_zero e.cycle_count < 2 ^ 32
    → IsChained e fs
    → int32_or_zero (last_of e fs).cycle_count
      ≡ (int32_or_zero e.cycle_count + reworks e fs) % 2 ^ 32
cycle_count-reworks e [] small h = omega arith
cycle_count-reworks e (f ∷ fs) small h =
    let step : int32_or_zero f.cycle_count
        ≡ calculate_cycle_count (some e) f.mapped_canonical_state =
      ap int32_or_zero h.0 in
    let (bound, value) = next_count e f.mapped_canonical_state small in
    let ih = cycle_count-reworks f fs (rw step bound) h.1 in omega (arith, ih, step, value)

-- The state of an added label is the one that the mapper gives it. Any other action gives `UNKNOWN`
-- for the label that it names, mapped or not, and the empty state for a metadata label. With no label
-- the state is empty.
pub determine_canonical_state_lem :
    (lib : TextLib) (m : Mapper) (action added removed : String)
    → determine_canonical_state lib m action added removed ≡ (
        if action == "add"
        then (if added == "" then "" else (map_label lib m added).0)
        else if removed == ""
        then ""
        else if is_metadata (map_label lib m removed).1
        then ""
        else "UNKNOWN")
unfolding determine_canonical_state
determine_canonical_state_lem lib m action added removed =
    ground (arith, map_label-classify lib m added, map_label-classify lib m removed)
