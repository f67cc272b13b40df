-- ===== src/Transformer/Notes/Histories.antt =====
-- Notes of the system that tell of assignees (internal/transformer/service.go).
use gitlab_elt.Common.{map, [], ℕ, String, Bool, List, ◌∷◌, ◌==◌, ◌≡◌, nat_eq, if◌then◌else◌}
use gitlab_elt.Repository.{Db, Issue, Result, ok}
use gitlab_elt.Repository.Silver.{update_issues}
use gitlab_elt.Transformer.Assignees.{apply_assignee_change}
use gitlab_elt.Transformer.Assignees.Types.{AssigneeHistory, AssigneeChange}
use gitlab_elt.Transformer.Service.{Service}

-- What is known of a call that stores a history: `modified` is the code's own word for it.
abbrev IsUpdated : ℕ → String → Bool → Db → Result Unit × Db → Type 0
IsUpdated id assignees modified d (r, d') =
    (r ≡ ok tt)
    × (d'.issues ≡ (
        if modified
        then update_issues (λ i. i.id == id) (λ i. record i { assignees = assignees }) d.issues
        else d.issues))
    × (d'.issue_comments ≡ d.issue_comments)
    × (d'.issue_events ≡ d.issue_events)

-- The history after the changes, one after the other.
abbrev pub history_after : List AssigneeChange → ℕ → AssigneeHistory → AssigneeHistory
history_after [] at h = h
history_after (c ∷ cs) at h = history_after cs at (apply_assignee_change h c at).0

-- The issues with the encoding of a history for one of them. Where the history is the one before, they
-- may stay as they are.
pub data Holds (id : ℕ) (before after : AssigneeHistory) (assignees : String) (is is' : List Issue)
    : Type 0 where
  stored :
      is' ≡ map (λ (i : Issue). if i.id == id then record i { assignees = assignees } else i) is
      → Holds id before after assignees is is'
  unchanged : after ≡ before → is' ≡ is → Holds id before after assignees is is'

-- A success after which the issue holds the history, and the comments and the issue events are as
-- before.
abbrev pub IsStored :
    ℕ → AssigneeHistory → AssigneeHistory → String → Db → Result Unit × Db → Type 0
IsStored id before after assignees d (r, d') =
    (r ≡ ok tt)
    × Holds id before after assignees d.issues d'.issues
    × (d'.issue_comments ≡ d.issue_comments)
    × (d'.issue_events ≡ d.issue_events)
