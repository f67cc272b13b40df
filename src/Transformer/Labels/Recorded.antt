-- ===== src/Transformer/Labels/Recorded.antt =====
-- Label events that add a state label (internal/transformer/service.go).
use gitlab_elt.Common.{
  map, if◌then◌else◌, ℕ, suc, String, false, some, List, [], ◌∷◌, ◌++◌, ◌==◌, ◌≡◌, refl, nat_eq,
  string_eq, any, arith,
}
use gitlab_elt.Domain.{GitlabLabelEvent}
use gitlab_elt.Repository.{Db, RawEvent, Issue, IssueEvent, Result, ok, advance, statement}
use gitlab_elt.Repository.Keys.{AllNumbered}
use gitlab_elt.Repository.Silver.{
  one_row, is_event_key, new_issue_event, update_issues, last_event, insert_issue_event,
  get_last_issue_event, InsertIssueEventParams,
}
use gitlab_elt.Transformer.Labels.Row.{IsRow}
use gitlab_elt.Transformer.Working.{not_found}
use gitlab_elt.Transformer.Service.{Service, known_event}

pub last_event-numbered :
    (id : ℕ) (es : List IssueEvent)
    → AllNumbered es
    → known_event (one_row (last_event id es)) ≡ last_event id es
unfolding last_event
last_event-numbered id [] n = refl
last_event-numbered id (e ∷ es) n = ground (arith, last_event-numbered id es n.1)

-- The issue events and the issues after a new event has been recorded with a state.
abbrev IsInserted : InsertIssueEventParams → ℕ → String → Db → Result Unit × Db → Type 0
IsInserted p issue_id state d (r, d') =
    (r ≡ ok tt)
    × (d'.issue_events ≡ d.issue_events ++ (new_issue_event (suc d.issue_event_seq) p ∷ []))
    × (d'.issues
        ≡ update_issues (λ i. i.id == issue_id)
            (λ i. record i { current_canonical_state = some state }) d.issues)

-- A success that has appended one row with these columns, and cached the state of the issue.
abbrev pub IsRecorded :
    RawEvent → Issue → GitlabLabelEvent → String → Db → Result Unit × Db → Type 0
IsRecorded raw issue le state d (r, d') =
    (r ≡ ok tt)
    × ((row : IssueEvent) × (d'.issue_events ≡ d.issue_events ++ (row ∷ []))
        × IsRow raw issue le state (last_event issue.id d.issue_events) row)
    × (d'.issues
        ≡ map
            (λ (i : Issue).
              if i.id == issue.id then record i { current_canonical_state = some state } else i)
            d.issues)

module _ (s : Service) (works : (t : ℕ) → s.env.fails t ≡ false) where
  pub insert_new :
      (p : InsertIssueEventParams) (d : Db)
      → any (is_event_key p.gitlab_event_id p.project_id) d.issue_events ≡ false
      → insert_issue_event s.env p d ≡ (
        ok (new_issue_event (suc d.issue_event_seq) p),
        record (advance d) {
          issue_event_seq = suc d.issue_event_seq;
          issue_events = d.issue_events ++ (new_issue_event (suc d.issue_event_seq) p ∷ []);
        },
      )
  unfolding insert_issue_event statement
  insert_new p d new =
      rw (works d.tick, not_found (is_event_key p.gitlab_event_id p.project_id) d.issue_events new)
        refl

  pub last_found :
      (id : ℕ) (d : Db)
      → get_last_issue_event s.env id d ≡ (one_row (last_event id d.issue_events), advance d)
  unfolding get_last_issue_event statement last_event
  last_found id d = rw (works d.tick) refl
