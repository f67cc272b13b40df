-- ===== src/Tests/Sample.antt =====
-- Sample data: one issue, a few raw events, and a database whose statements all work.
use gitlab_elt.Common.{
  refl, arith, ℕ, ◌+◌, String, true, false, Option, none, some, [], ◌∷◌, ◌==◌, string_eq,
  if◌then◌else◌,
}
use gitlab_elt.Domain.{User, Label, GitlabLabelEvent}
use gitlab_elt.Text.{TextLib}
use gitlab_elt.Json.{Codec}
use gitlab_elt.Mapper.{Mapper}
use gitlab_elt.Repository.{Env, Db, RawEvent, RawProject, Project, Issue, IssueEvent}
use gitlab_elt.Repository.Keys.{IsConsistent}
use gitlab_elt.Transformer.Service.{Service}

abbrev pub text_lib : TextLib
text_lib = record { lower_rune = λ c. c; strip_marks = λ s. s }

abbrev pub ana : User
ana = record { id = 7; username = "ana"; name = "Ana" }

abbrev pub doing : Label
doing = record { id = 1; name = "doing" }

abbrev pub added : GitlabLabelEvent
added = record {
  id = 11;
  user = ana;
  action = "add";
  label = doing;
  created_at = 5_000_000;
  resource_type = "Issue";
}

abbrev pub removed : GitlabLabelEvent
removed = record added { id = 12; action = "remove" }

abbrev decode_label : String → Option GitlabLabelEvent
decode_label t = if t == "added" then some added else if t == "removed" then some removed else none

abbrev pub codec : Codec
codec = record {
  encode_project = λ p. some p.name;
  encode_issue = λ i. some i.title;
  decode_issue = λ t. none;
  encode_label_event = λ e. some "added";
  decode_label_event = decode_label;
  encode_note = λ n. some n.body;
  decode_note = λ t. none;
  encode_history = λ h. some "{}";
  decode_history = λ t. none;
  encode_metadata = λ m. some "{}";
  decode_metadata = λ t. none;
}

abbrev pub env : Env
env = record {
  fails = λ t. false;
  now = λ t. 9_000_000 + t;
  has_metrics = true;
  by_name = λ ps. ps;
}

abbrev pub mapper : Mapper
mapper = record {
  state_mappings = ("doing", "IN_PROGRESS") ∷ ("qa", "QA_REVIEW") ∷ [];
  metadata_mappings = ("high", "priority") ∷ [];
}

abbrev pub service : Service
service = record { env = env; lib = text_lib; codec = codec; mapper = mapper; batch_size = 1 }

abbrev pub raw : ℕ → String → RawEvent
raw id payload = record {
  id = id;
  gitlab_event_id = some 11;
  project_id = 3;
  issue_iid = 5;
  event_type = "label_event";
  raw_payload = payload;
  processed = false;
}

abbrev pub issue : Issue
issue = record {
  id = 1;
  gitlab_issue_id = 40;
  project_id = 3;
  iid = 5;
  title = some "A title";
  current_canonical_state = some "QA_REVIEW";
  metadata_labels = "";
  assignees = "";
  gitlab_created_at = 1_000_000;
}

-- The last event of the issue, in the state `QA_REVIEW`.
abbrev pub reviewed : IssueEvent
reviewed = record {
  id = 1;
  gitlab_event_id = some 10;
  issue_id = 1;
  project_id = 3;
  issue_iid = 5;
  author_name = some "ana";
  raw_label_added = some "qa";
  raw_label_removed = none;
  mapped_canonical_state = "QA_REVIEW";
  event_timestamp = 2_000_000;
  is_noise = false;
  cycle_count = some 0;
}

-- The event that the row of `added` is.
abbrev pub recorded : IssueEvent
recorded = record reviewed { id = 2; gitlab_event_id = some 11 }

abbrev pub project : Project
project = record { id = 3; name = "p"; path = "g/p"; last_synced_at = some 4_000_000 }

abbrev pub raw_project : RawProject
raw_project = record {
  id = 3;
  name = "p";
  path = "g/p";
  last_synced_at = some 4_000_000;
  raw_metadata = "{}";
}

abbrev pub db : Db
db = record {
  raw_projects = raw_project ∷ [];
  raw_events = raw 1 "broken" ∷ raw 2 "added" ∷ [];
  raw_issues = [];
  projects = project ∷ [];
  issues = issue ∷ [];
  issue_events = reviewed ∷ [];
  issue_comments = [];
  unknown_labels = [];
  state_mappings = record { gitlab_label_name = " doing"; canonical_state = "IN_PROGRESS" } ∷ [];
  metadata_mappings = [];
  raw_event_seq = 2;
  raw_issue_seq = 0;
  issue_seq = 1;
  issue_event_seq = 1;
  issue_comment_seq = 0;
  unknown_label_seq = 0;
  tick = 0;
  metrics = [];
}

-- The same database with the row of the event `added`.
abbrev pub db_recorded : Db
db_recorded = record db { issue_events = reviewed ∷ recorded ∷ []; issue_event_seq = 2 }

pub db-IsConsistent : IsConsistent db
db-IsConsistent = record {
  issue_keys = (refl, tt);
  event_keys = (refl, tt);
  event_ids = (omega arith, tt);
  note_keys = tt;
  label_keys = tt;
}
