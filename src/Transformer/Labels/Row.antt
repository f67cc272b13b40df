-- ===== src/Transformer/Labels/Row.antt =====
-- The row of a label event that adds a label (internal/transformer/service.go, edge_cases.go), by its
-- columns.
use gitlab_elt.Common.{
  ℕ, ◌+◌, ◌%◌, ◌^◌, ◌<◌, String, true, false, Option, none, some, ◌==◌, string_eq, eq_iff, ◌≡◌, ◌≢◌,
  ◌⊎◌, ◌↔◌, inl, inr, refl, ap, arith, Bool-cases,
}
use gitlab_elt.Domain.{GitlabLabelEvent}
use gitlab_elt.Repository.{RawEvent, Issue, IssueEvent}
use gitlab_elt.Repository.Silver.{new_issue_event}
use gitlab_elt.Transformer.EdgeCases.{detect_nervous_finger, calculate_cycle_count, int32_or_zero}
use gitlab_elt.Transformer.EdgeCases.Laws.{nervous_finger_iff}
use gitlab_elt.Transformer.Service.{event_params}

-- The event changes the state of the last one, which is not BACKLOG, less than 15 minutes (900000 ms)
-- after it, or before it.
abbrev pub IsNervous : Option IssueEvent → String → ℕ → Type 0
IsNervous none state at = ⊥
IsNervous (some last) state at =
    (last.mapped_canonical_state ≢ state)
    × (last.mapped_canonical_state ≢ "BACKLOG")
    × (at < last.event_timestamp + 900_000)

-- The cycles so far: none at first, one more on the way back from the review to work, and otherwise as
-- many as before.
pub data Cycles (last : Option IssueEvent) (state : String) (count : ℕ) : Type 0 where
  first_event : last ≡ none → count ≡ 0 → Cycles last state count
  back_to_work :
      (e : IssueEvent)
      → last ≡ some e
      → e.mapped_canonical_state ≡ "QA_REVIEW"
      → state ≡ "IN_PROGRESS"
      → count ≡ (int32_or_zero e.cycle_count + 1) % 2 ^ 32
      → Cycles last state count
  same_cycle :
      (e : IssueEvent)
      → last ≡ some e
      → (e.mapped_canonical_state ≢ "QA_REVIEW") ⊎ (state ≢ "IN_PROGRESS")
      → count ≡ int32_or_zero e.cycle_count
      → Cycles last state count

-- The columns of the row of an added label, in a state, behind the issue's last event.
pub record IsRow (raw : RawEvent) (issue : Issue) (le : GitlabLabelEvent) (state : String)
    (last : Option IssueEvent) (row : IssueEvent) : Type 0 where
  pub event_id : row.gitlab_event_id ≡ some le.id
  pub issue_id : row.issue_id ≡ issue.id
  pub project_id : row.project_id ≡ raw.project_id
  pub issue_iid : row.issue_iid ≡ raw.issue_iid
  pub author : row.author_name ≡ some le.user.username
  pub added : row.raw_label_added ≡ some le.label.name
  pub removed : row.raw_label_removed ≡ none
  pub state_of : row.mapped_canonical_state ≡ state
  pub at : row.event_timestamp ≡ le.created_at
  pub noise : (row.is_noise ≡ true) ↔ IsNervous last state le.created_at
  pub count : ℕ
  pub counted : row.cycle_count ≡ some count
  pub cycles : Cycles last state count

noise_iff :
    (last : Option IssueEvent) (state : String) (at : ℕ)
    → (detect_nervous_finger last state at ≡ true) ↔ IsNervous last state at
unfolding detect_nervous_finger
noise_iff none state at = ((λ e. cc e), λ h. absurd h)
noise_iff (some e) state at = nervous_finger_iff e state at

count-Cycles :
    (last : Option IssueEvent) (state : String)
    → Cycles last state (calculate_cycle_count last state)
unfolding calculate_cycle_count
count-Cycles none state = first_event refl refl
count-Cycles (some e) state = elim (Bool-cases (e.mapped_canonical_state == "QA_REVIEW")) [
  | inr elsewhere ↦
      same_cycle e refl (inl (ground (arith, eq_iff e.mapped_canonical_state "QA_REVIEW")))
        (rw elsewhere refl)
  | inl review ↦ elim (Bool-cases (state == "IN_PROGRESS")) [
    | inl work ↦
        back_to_work e refl ((eq_iff _ _).0 review) ((eq_iff _ _).0 work) (rw (review, work) refl)
    | inr other ↦
        same_cycle e refl (inr (ground (arith, eq_iff state "IN_PROGRESS")))
          (rw (review, other) refl)
  ]
]

pub event_params-IsRow :
    (raw : RawEvent) (issue : Issue) (le : GitlabLabelEvent) (state : String)
    (last : Option IssueEvent) (id : ℕ)
    → le.action ≡ "add"
    → le.label.name ≢ ""
    → IsRow raw issue le state last (new_issue_event id (event_params raw issue le state last))
event_params-IsRow raw issue le state last id add named =
    let is_add : (le.action == "add") ≡ true = ap (λ a. a == "add") add in
    let is_named : (le.label.name == "") ≡ false = ground (arith, eq_iff le.label.name "") in
    record {
      event_id = refl;
      issue_id = refl;
      project_id = refl;
      issue_iid = refl;
      author = refl;
      added = rw (is_add, is_named) refl;
      removed = rw is_add refl;
      state_of = refl;
      at = refl;
      noise = noise_iff last state le.created_at;
      count = calculate_cycle_count last state;
      counted = refl;
      cycles = count-Cycles last state;
    }
