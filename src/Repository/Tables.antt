-- ===== src/Repository/Tables.antt =====
-- internal/repository/models.go: the rows, in the columns that the worker's queries read or write.
-- A nullable text or number is an `Option`; a JSONB column holds the text of its value, "" for NULL.
use gitlab_elt.Common.{ℕ, String, Bool, Option}

-- Bronze.

pub record RawProject : Type 0 where
  pub id : ℕ
  pub name : String
  pub path : String
  pub last_synced_at : Option ℕ
  pub raw_metadata : String

pub record RawEvent : Type 0 where
  pub id : ℕ
  pub gitlab_event_id : Option ℕ
  pub project_id : ℕ
  pub issue_iid : ℕ
  pub event_type : String
  pub raw_payload : String
  pub processed : Bool

pub record RawIssue : Type 0 where
  pub id : ℕ
  pub gitlab_issue_id : ℕ
  pub project_id : ℕ
  pub iid : ℕ
  pub title : String
  pub description : Option String
  pub state : String
  pub raw_payload : String

-- Silver.

pub record Project : Type 0 where
  pub id : ℕ
  pub name : String
  pub path : String
  pub last_synced_at : Option ℕ

pub record Issue : Type 0 where
  pub id : ℕ
  pub gitlab_issue_id : ℕ
  pub project_id : ℕ
  pub iid : ℕ
  pub title : Option String
  pub current_canonical_state : Option String
  pub metadata_labels : String
  pub assignees : String
  pub gitlab_created_at : ℕ

pub record IssueEvent : Type 0 where
  pub id : ℕ
  pub gitlab_event_id : Option ℕ
  pub issue_id : ℕ
  pub project_id : ℕ
  pub issue_iid : ℕ
  pub author_name : Option String
  pub raw_label_added : Option String
  pub raw_label_removed : Option String
  pub mapped_canonical_state : String
  pub event_timestamp : ℕ
  pub is_noise : Bool
  pub cycle_count : Option ℕ

pub record IssueComment : Type 0 where
  pub id : ℕ
  pub gitlab_note_id : ℕ
  pub issue_id : ℕ
  pub author_name : Option String
  pub body : Option String
  pub comment_timestamp : ℕ

pub record UnknownLabelsLog : Type 0 where
  pub id : ℕ
  pub label_name : String
  pub occurrence_count : ℕ

pub record StateMapping : Type 0 where
  pub gitlab_label_name : String
  pub canonical_state : String

pub record MetadataMapping : Type 0 where
  pub gitlab_label_name : String
  pub metadata_key : String
