-- ===== src/Transformer/Frame/Consistent.antt =====
-- The unique constraints under the transformation of an event (internal/transformer over
-- internal/repository).
use gitlab_elt.Common.{nat_eq, arith}
use gitlab_elt.Repository.{Db, RawEvent, statement, now_utc, record_metric}
use gitlab_elt.Repository.Bronze.{get_raw_issue_by_project_and_iid}
use gitlab_elt.Repository.Silver.{
  get_issue_by_id, get_issue_by_project_and_iid, get_last_issue_event,
}
use gitlab_elt.Repository.Keys.{
  IsConsistent, upsert_issue-IsConsistent, insert_issue_event-IsConsistent,
  insert_issue_comment-IsConsistent, upsert_unknown_label-IsConsistent,
  update_issue_assignees-IsConsistent, update_issue_canonical_state-IsConsistent,
  update_issue_metadata-IsConsistent,
}
use gitlab_elt.Transformer.Service.{Service, transform_event}
use gitlab_elt.Transformer.Frame.{KeepsQueries, transform_event-Keeps}

abbrev pub StaysConsistent : Db → Db → Type 0
StaysConsistent d e = IsConsistent d → IsConsistent e

module _ (s : Service) where
  consistent_queries : KeepsQueries s StaysConsistent
  unfolding statement now_utc record_metric get_raw_issue_by_project_and_iid get_issue_by_id
      get_issue_by_project_and_iid get_last_issue_event
  consistent_queries = record {
    frame = record { same = λ d c. c; then_also = λ d e f h k c. k (h c) };
    now = record { holds = λ d c. ground arith };
    metric = λ m. record { holds = λ d c. ground arith };
    raw_issue = λ p i. record { holds = λ d c. ground arith };
    issue_by_id = λ i. record { holds = λ d c. ground arith };
    issue_by_iid = λ p i. record { holds = λ d c. ground arith };
    upsert = λ p. record { holds = λ d c. upsert_issue-IsConsistent s.env d c p };
    assignees = λ t i. record { holds = λ d c. update_issue_assignees-IsConsistent s.env d c t i };
    state =
        λ t i. record { holds = λ d c. update_issue_canonical_state-IsConsistent s.env d c t i };
    metadata = λ t i. record { holds = λ d c. update_issue_metadata-IsConsistent s.env d c t i };
    last_event = λ i. record { holds = λ d c. ground arith };
    event = λ p. record { holds = λ d c. insert_issue_event-IsConsistent s.env d c p };
    comment = λ p. record { holds = λ d c. insert_issue_comment-IsConsistent s.env d c p };
    unknown = λ l. record { holds = λ d c. upsert_unknown_label-IsConsistent s.env d c l };
  }

  -- Whatever event is transformed, and whichever statements fail, no two issues have one project and
  -- number, no two issue events one GitLab id and project, no two comments one note id and no two
  -- unknown labels one name, if this held before.
  pub transform_event-IsConsistent :
      (raw : RawEvent) (d : Db) → IsConsistent d → IsConsistent (transform_event s raw d).1
  transform_event-IsConsistent raw d c =
      (transform_event-Keeps s StaysConsistent consistent_queries raw).holds d c
