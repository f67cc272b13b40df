-- ===== src/Json.antt =====
-- The values that the code marshals by `encoding/json` and reads back, in or out of a JSONB column.
-- The texts themselves are left to that package: a decoder gives no value where `Unmarshal` fails.
use gitlab_elt.Common.{String, Option, List, GoMap}
use gitlab_elt.Domain.{GitlabProject, GitlabIssue, GitlabLabelEvent, GitlabNote}
use gitlab_elt.Transformer.Assignees.Types.{AssigneeHistory}

pub record Codec : Type 0 where
  pub encode_project : GitlabProject → Option String
  pub encode_issue : GitlabIssue → Option String
  pub decode_issue : String → Option GitlabIssue
  pub encode_label_event : GitlabLabelEvent → Option String
  pub decode_label_event : String → Option GitlabLabelEvent
  pub encode_note : GitlabNote → Option String
  pub decode_note : String → Option GitlabNote
  pub encode_history : AssigneeHistory → Option String
  pub decode_history : String → Option AssigneeHistory
  pub encode_metadata : GoMap String (List String) → Option String
  pub decode_metadata : String → Option (GoMap String (List String))
