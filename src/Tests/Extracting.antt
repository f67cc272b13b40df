-- ===== src/Tests/Extracting.antt =====
-- The extractor, the discovery and the scheduler on sample data.
use gitlab_elt.Common.{map, ℕ, false, String, true, some, [], ◌∷◌, ◌≡◌, refl, nat_eq, if◌then◌else◌}
use gitlab_elt.Domain.{GitlabProject, GitlabIssue, GitlabNote}
use gitlab_elt.Gitlab.{GitlabClient, list_group_projects}
use gitlab_elt.Repository.{Db, ok, err, api_failure}
use gitlab_elt.Repository.Projects.{sync_rows}
use gitlab_elt.Repository.Projects.Cursor.{cursors, cursors-sync_rows}
use gitlab_elt.Repository.Projects.Forward.{Forward}
use gitlab_elt.Sync.{
  Extractor, RawEventData, extract_project, extract_all, label_raw_events, note_raw_events,
}
use gitlab_elt.Sync.Payloads.{read_label, read_note, raw_events-read}
use gitlab_elt.Worker.{Worker, sync_func, discover_func}
use gitlab_elt.Worker.Runs.{Reaches, start, step, synced, discovered, Reaches-IsConsistent}
use gitlab_elt.Transformer.Frame.Rows.{KeepsRows}
use gitlab_elt.Repository.Keys.{IsConsistent}
use gitlab_elt.Sync.Appends.{Appends, extract_all-Appends}
use gitlab_elt.Sync.Cursor.{MovesOnly, extract_project-MovesOnly}
use gitlab_elt.Discovery.{Service, add_unseen, fetch_groups, fetch_all_group_projects, run}
use gitlab_elt.Discovery.Cursors.{run-Forward}
use gitlab_elt.Discovery.Unique.{copies, listed_ids, fetch_all_group_projects-ListedOnce}
use gitlab_elt.Tests.Sample.{env, codec, db, raw_project, ana, added, service, db-IsConsistent}

abbrev gitlab_issue : GitlabIssue
gitlab_issue = record {
  id = 40;
  iid = 5;
  project_id = 3;
  title = "A title";
  state = "opened";
  labels = [];
  created_at = 1_000_000;
  updated_at = 6_000_000;
}

abbrev gitlab_project : GitlabProject
gitlab_project = record { id = 3; name = "p"; path_with_namespace = "g/p" }

-- One project in each group, and one issue, whose label events cannot be listed.
abbrev gitlab : GitlabClient
gitlab = record {
  group_projects = λ t g. ok (gitlab_project ∷ []);
  issues = λ t p since. ok (gitlab_issue ∷ []);
  label_events = λ t p i. err api_failure;
  notes = λ t p i. ok [];
}

abbrev extractor : Extractor
extractor = record { env = env; gitlab = gitlab; codec = codec; has_queries = true }

extract_all-Appends_example : Appends db (extract_all extractor db).1
extract_all-Appends_example = extract_all-Appends extractor db

extract_project-MovesOnly_example :
    MovesOnly 3 9_000_000 db (extract_project extractor raw_project db)
extract_project-MovesOnly_example =
    extract_project-MovesOnly extractor (λ t. refl) raw_project (gitlab_issue ∷ []) db refl
      (λ t p i. refl) refl (refl, refl)

cursors-sync_rows_example :
    cursors 3 (sync_rows 3 (some 9_000_000) db).1 ≡ (some 9_000_000, some 9_000_000)
cursors-sync_rows_example = cursors-sync_rows 3 3 (some 9_000_000) db

abbrev discovery : Service
discovery = record {
  env = env;
  gitlab = gitlab;
  codec = codec;
  has_queries = true;
  group_ids = 1 ∷ 2 ∷ [];
}

run-Forward_example : Forward db (run discovery db).1
run-Forward_example = run-Forward discovery db

-- Both groups have the project, which is found once.
two_groups : (fetch_all_group_projects discovery db).0 ≡ ok (gitlab_project ∷ [])
unfolding fetch_all_group_projects fetch_groups list_group_projects add_unseen
two_groups = refl

fetch_all_group_projects-ListedOnce_example :
    copies 3 (gitlab_project ∷ []) ≡ (if listed_ids discovery 3 (1 ∷ 2 ∷ []) db then 1 else 0)
fetch_all_group_projects-ListedOnce_example =
    fetch_all_group_projects-ListedOnce discovery 3 db two_groups

-- A comment, in place of JSON written as its text.
abbrev hello : GitlabNote
hello = record { id = 21; body = "hello"; author = ana; created_at = 7_000_000; system = false }

abbrev reading : Extractor
reading = record extractor { codec = record codec { decode_note = λ t. some hello } }

abbrev stored : String → ℕ → String → RawEventData
stored event_type id payload = record {
  gitlab_event_id = id;
  project_id = 3;
  issue_iid = 5;
  event_type = event_type;
  raw_payload = payload;
}

stored_label :
    label_raw_events reading 3 5 (added ∷ []) ≡ some (stored "label_event" 11 "added" ∷ [])
unfolding label_raw_events
stored_label = refl

stored_note : note_raw_events reading 3 5 (hello ∷ []) ≡ some (stored "note" 21 "hello" ∷ [])
unfolding note_raw_events
stored_note = refl

raw_events-read_example :
    (map (read_label reading) (stored "label_event" 11 "added" ∷ [])
      ≡ (5, "label_event", some added) ∷ [])
    × (map (read_note reading) (stored "note" 21 "hello" ∷ []) ≡ (5, "note", some hello) ∷ [])
raw_events-read_example =
    raw_events-read reading 3 5 (added ∷ []) (hello ∷ []) (refl, tt) (refl, tt) stored_label
      stored_note

-- A discovery and then a sync.
abbrev worker : Worker
worker = record { extractor = extractor; transformer = service; discovery = discovery }

abbrev discovered_db : Db
discovered_db = (discover_func worker db).1

two_jobs : Reaches db (sync_func worker discovered_db).1
two_jobs =
    step discovered_db (sync_func worker discovered_db).1
      (step db discovered_db start (discovered worker db)) (synced worker discovered_db)

Reaches-IsConsistent_example :
    IsConsistent (sync_func worker discovered_db).1
    × KeepsRows db (sync_func worker discovered_db).1
Reaches-IsConsistent_example = Reaches-IsConsistent two_jobs db-IsConsistent
