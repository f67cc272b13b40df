-- ===== src/Repository/Silver.antt =====
-- The queries of the Silver tables (internal/repository/issues.sql.go, issue_events.sql.go,
-- issue_comments.sql.go and unknown_labels_log.sql.go).
mod Rows
mod Issues
mod IssueEvents
mod Notes
pub use Rows.*
pub use Issues.*
pub use IssueEvents.*
pub use Notes.*
unfoldable pub use Issues.{
  get_issue_by_id, get_issue_by_project_and_iid, upsert_issue, update_issue_assignees,
  update_issue_canonical_state, update_issue_metadata,
}
unfoldable pub use IssueEvents.{last_event, get_last_issue_event, insert_issue_event}
unfoldable pub use Notes.{insert_issue_comment, upsert_unknown_label}
