-- ===== src/Repository/Connection.antt =====
-- internal/repository/db.go and what the queries run over: the tables, the failures of the
-- connection, and the actions that a caller composes.
use gitlab_elt.Common.{ℕ, suc, String, Bool, Option, none, some, List, ◌∷◌, if◌then◌else◌}
use gitlab_elt.Repository.Tables.{
  RawProject, RawEvent, RawIssue, Project, Issue, IssueEvent, IssueComment, UnknownLabelsLog,
  StateMapping, MetadataMapping,
}

-- The kinds of error that the code returns. Wrapping by `%w` keeps the kind, and the texts of the
-- messages are left out.
pub data Err : Type 0 where
  no_rows db_failure bad_json bad_marshal api_failure : Err
  cursor_rows : ℕ → Err
  projects_failed : ℕ → Err
  not_configured : Err

pub data Result (A : Type 0) : Type 0 where
  ok : A → Result A
  err : Err → Result A

-- One call of the metrics recorder.
pub data Metric : Type 0 where
  transform_result : String → String → String → Metric
  raw_event_ingested : ℕ → String → Metric
  last_successful_sync : ℕ → String → ℕ → Metric
  sync_run : String → String → Metric
  projects_monitored : ℕ → Metric

-- The database, with the sequences that number new rows, the clock of the run, and the metrics
-- recorded so far, the latest first. `raw_events` stands in the order of `fetched_at`, which is the
-- time of the insert.
pub record Db : Type 0 where
  pub raw_projects : List RawProject
  pub raw_events : List RawEvent
  pub raw_issues : List RawIssue
  pub projects : List Project
  pub issues : List Issue
  pub issue_events : List IssueEvent
  pub issue_comments : List IssueComment
  pub unknown_labels : List UnknownLabelsLog
  pub state_mappings : List StateMapping
  pub metadata_mappings : List MetadataMapping
  pub raw_event_seq : ℕ
  pub raw_issue_seq : ℕ
  pub issue_seq : ℕ
  pub issue_event_seq : ℕ
  pub issue_comment_seq : ℕ
  pub unknown_label_seq : ℕ
  pub tick : ℕ
  pub metrics : List Metric

-- What the program does not implement: which statements fail (a lost connection, a broken
-- constraint that no `ON CONFLICT` names), what the clock shows at each tick, and the order of names,
-- which is the collation of the database.
pub record Env : Type 0 where
  pub fails : ℕ → Bool
  pub now : ℕ → ℕ
  pub has_metrics : Bool
  pub by_name : List RawProject → List RawProject

abbrev pub Action : Type 0 → Type 0
Action A = Db → Result A × Db

module _ {A : Type 0} where
  abbrev pub pure : A → Action A
  pure a d = (ok a, d)

  abbrev pub raise : Err → Action A
  raise e d = (err e, d)

  -- A call whose error the caller looks at itself.
  abbrev pub returned : Result A × Db → Result (Result A) × Db
  returned (r, d) = (ok r, d)

  abbrev pub attempt : Action A → Action (Result A)
  attempt m d = returned (m d)

  abbrev pub or_raise : Option A → Err → Action A
  or_raise none e = raise e
  or_raise (some a) e = pure a

-- What follows a call: the rest of the body, or the early return of its error.
abbrev pub continue : {A B : Type 0} → Result A × Db → (A → Action B) → Result B × Db
continue (ok a, d) f = f a d
continue (err e, d) f = (err e, d)

infixl 5 ◌>>=◌ ◌>>◌
abbrev pub ◌>>=◌ : {A B : Type 0} → Action A → (A → Action B) → Action B
◌>>=◌ m f d = continue (m d) f

abbrev pub ◌>>◌ : {A B : Type 0} → Action A → Action B → Action B
first >> second = first >>= λ _. second

-- The handler of `if err != nil`.
abbrev pub handle : {A : Type 0} → Result A × Db → (Err → Action A) → Result A × Db
handle (ok a, d) f = (ok a, d)
handle (err e, d) f = f e d

abbrev pub on_error : {A : Type 0} → Action A → (Err → Action A) → Action A
on_error m f d = handle (m d) f

abbrev pub advance : Db → Db
advance d = record d { tick = suc d.tick }

module _ (env : Env) where
  -- One SQL statement: it fails and changes no row, or it is carried out.
  unfoldable pub statement : {A : Type 0} → Action A → Action A
  statement q d = if env.fails d.tick then (err db_failure, advance d) else q (advance d)

  -- `time.Now().UTC()`
  unfoldable pub now_utc : Action ℕ
  now_utc d = (ok (env.now d.tick), advance d)

  unfoldable pub record_metric : Metric → Action (Unit {0})
  record_metric m d = (ok tt, if env.has_metrics then record d { metrics = m ∷ d.metrics } else d)
