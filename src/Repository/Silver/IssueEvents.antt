-- ===== src/Repository/Silver/IssueEvents.antt =====
-- internal/repository/issue_events.sql.go.
use gitlab_elt.Common.{
  ℕ, suc, String, Bool, not, ◌&&◌, Option, none, some, List, [], ◌∷◌, ◌++◌, if◌then◌else◌, ◌==◌,
  nat_eq, string_eq, find?, ltb,
}
use gitlab_elt.Repository.Tables.{IssueEvent}
use gitlab_elt.Repository.Connection.{Env, Action, ok, err, no_rows, statement}
use gitlab_elt.Repository.Silver.Rows.{one_row, sql_eq}

pub record InsertIssueEventParams : Type 0 where
  pub gitlab_event_id : Option ℕ
  pub issue_id : ℕ
  pub project_id : ℕ
  pub issue_iid : ℕ
  pub author_name : Option String
  pub raw_label_added : Option String
  pub raw_label_removed : Option String
  pub mapped_canonical_state : String
  pub event_timestamp : ℕ
  pub is_noise : Bool
  pub cycle_count : Option ℕ

abbrev pub new_issue_event : ℕ → InsertIssueEventParams → IssueEvent
new_issue_event id p = record {
  id = id;
  gitlab_event_id = p.gitlab_event_id;
  issue_id = p.issue_id;
  project_id = p.project_id;
  issue_iid = p.issue_iid;
  author_name = p.author_name;
  raw_label_added = p.raw_label_added;
  raw_label_removed = p.raw_label_removed;
  mapped_canonical_state = p.mapped_canonical_state;
  event_timestamp = p.event_timestamp;
  is_noise = p.is_noise;
  cycle_count = p.cycle_count;
}

-- The columns of the constraint UNIQUE(gitlab_event_id, project_id).
abbrev pub is_event_key : Option ℕ → ℕ → IssueEvent → Bool
is_event_key gitlab_event_id project_id e =
    sql_eq e.gitlab_event_id gitlab_event_id && e.project_id == project_id

-- The later of two events by their timestamps. SQL leaves the order of ties open: here the row that
-- was inserted first is taken.
abbrev pub later : IssueEvent → Option IssueEvent → IssueEvent
later e none = e
later e (some f) = if ltb e.event_timestamp f.event_timestamp then f else e

-- `WHERE issue_id = $1 AND is_noise = FALSE ORDER BY event_timestamp DESC LIMIT 1`
unfoldable pub last_event : ℕ → List IssueEvent → Option IssueEvent
last_event issue_id [] = none
last_event issue_id (e ∷ es) =
    let rest = last_event issue_id es in
    if e.issue_id == issue_id && not e.is_noise then some (later e rest) else rest

module _ (env : Env) where
  unfoldable pub get_last_issue_event : ℕ → Action IssueEvent
  unfolding last_event
  get_last_issue_event issue_id =
      statement env (λ d. (one_row (last_event issue_id d.issue_events), d))

  -- `ON CONFLICT (gitlab_event_id, project_id) DO NOTHING RETURNING`: a conflict returns no row.
  unfoldable pub insert_issue_event : InsertIssueEventParams → Action IssueEvent
  insert_issue_event p = statement env (λ d.
      elim (find? (is_event_key p.gitlab_event_id p.project_id) d.issue_events) [
        | none ↦ (
          ok (new_issue_event (suc d.issue_event_seq) p),
          record d {
            issue_event_seq = suc d.issue_event_seq;
            issue_events = d.issue_events ++ (new_issue_event (suc d.issue_event_seq) p ∷ []);
          },
        )
        | some e ↦ (err no_rows, record d { issue_event_seq = suc d.issue_event_seq })
      ])
