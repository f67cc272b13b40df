-- ===== src/Transformer/Frame/Growth.antt =====
-- The rows of the tables under the transformation of an event (internal/transformer over
-- internal/repository).
use gitlab_elt.Common.{
  ℕ, suc, String, ◌∙◌, Bool, Option, List, [], ◌∷◌, ◌++◌, ◌==◌, ◌≡◌, refl, nat_eq, arith, Extends,
  Extends-refl, Extends-trans, Extends-snoc,
}
use gitlab_elt.Repository.{Db, RawEvent, Issue, statement, now_utc, record_metric}
use gitlab_elt.Repository.Bronze.{get_raw_issue_by_project_and_iid}
use gitlab_elt.Repository.Silver.{
  get_issue_by_id, get_issue_by_project_and_iid, get_last_issue_event, upsert_issue,
  insert_issue_event, insert_issue_comment, upsert_unknown_label, update_issue_assignees,
  update_issue_canonical_state, update_issue_metadata, is_issue, update_issues, overwrite_issue,
  UpsertIssueParams, InsertIssueEventParams, InsertIssueCommentParams, new_issue, new_issue_event,
  new_issue_comment,
}
use gitlab_elt.Repository.Keys.{KeepsKey}
use gitlab_elt.Transformer.Service.{Service, transform_event}
use gitlab_elt.Transformer.Frame.{KeepsQueries, transform_event-Keeps}

-- The project and the number of each issue.
abbrev pub keys : List Issue → List (ℕ × ℕ)
keys [] = []
keys (i ∷ is) = (i.project_id, i.iid) ∷ keys is

-- The raw events are untouched, the events and comments have rows added at the end at most, and no
-- issue is gone or has another project or number.
pub record Grows (d e : Db) : Type 0 where
  pub raw_events : e.raw_events ≡ d.raw_events
  pub raw_issues : e.raw_issues ≡ d.raw_issues
  pub issue_events : Extends d.issue_events e.issue_events
  pub issue_comments : Extends d.issue_comments e.issue_comments
  pub issues : Extends (keys d.issues) (keys e.issues)

Grows-refl : (d : Db) → Grows d d
Grows-refl d = record {
  raw_events = refl;
  raw_issues = refl;
  issue_events = Extends-refl d.issue_events;
  issue_comments = Extends-refl d.issue_comments;
  issues = Extends-refl (keys d.issues);
}

Grows-trans : (d e f : Db) → Grows d e → Grows e f → Grows d f
Grows-trans d e f g h = record {
  raw_events = h.raw_events ∙ g.raw_events;
  raw_issues = h.raw_issues ∙ g.raw_issues;
  issue_events =
      Extends-trans d.issue_events e.issue_events f.issue_events g.issue_events h.issue_events;
  issue_comments =
      Extends-trans d.issue_comments e.issue_comments f.issue_comments g.issue_comments
        h.issue_comments;
  issues = Extends-trans (keys d.issues) (keys e.issues) (keys f.issues) g.issues h.issues;
}

keys-update_issues :
    (test : Issue → Bool) (f : Issue → Issue) (is : List Issue)
    → KeepsKey f
    → keys (update_issues test f is) ≡ keys is
keys-update_issues test f [] k = refl
keys-update_issues test f (j ∷ js) k = ground (arith, k j, keys-update_issues test f js k)

Extends-keys-snoc : (is : List Issue) (j : Issue) → Extends (keys is) (keys (is ++ (j ∷ [])))
Extends-keys-snoc [] j = tt
Extends-keys-snoc (i ∷ is) j = (refl, Extends-keys-snoc is j)

module _ (s : Service) (d : Db) where
  upsert-Grows : (p : UpsertIssueParams) → Grows d (upsert_issue s.env p d).1
  unfolding statement upsert_issue
  upsert-Grows p = record {
    raw_events = ground arith;
    raw_issues = ground arith;
    issue_events = ground (arith, Extends-refl d.issue_events);
    issue_comments = ground (arith, Extends-refl d.issue_comments);
    issues = ground (
      arith,
      Extends-keys-snoc d.issues (new_issue (suc d.issue_seq) p),
      Extends-refl (keys d.issues),
      keys-update_issues (is_issue p.project_id p.iid) (overwrite_issue p) d.issues
          (λ _. (refl, refl)),
      Extends-refl (keys d.issues),
    );
  }

  event-Grows : (p : InsertIssueEventParams) → Grows d (insert_issue_event s.env p d).1
  unfolding statement insert_issue_event
  event-Grows p = record {
    raw_events = ground arith;
    raw_issues = ground arith;
    issue_events = ground (
      arith,
      Extends-refl d.issue_events,
      Extends-snoc d.issue_events (new_issue_event (suc d.issue_event_seq) p),
    );
    issue_comments = ground (arith, Extends-refl d.issue_comments);
    issues = ground (arith, Extends-refl (keys d.issues));
  }

  comment-Grows : (p : InsertIssueCommentParams) → Grows d (insert_issue_comment s.env p d).1
  unfolding statement insert_issue_comment
  comment-Grows p = record {
    raw_events = ground arith;
    raw_issues = ground arith;
    issue_events = ground (arith, Extends-refl d.issue_events);
    issue_comments = ground (
      arith,
      Extends-refl d.issue_comments,
      Extends-snoc d.issue_comments (new_issue_comment (suc d.issue_comment_seq) p),
    );
    issues = ground (arith, Extends-refl (keys d.issues));
  }

  unknown-Grows : (l : String) → Grows d (upsert_unknown_label s.env l d).1
  unfolding statement upsert_unknown_label
  unknown-Grows l = record {
    raw_events = ground arith;
    raw_issues = ground arith;
    issue_events = ground (arith, Extends-refl d.issue_events);
    issue_comments = ground (arith, Extends-refl d.issue_comments);
    issues = ground (arith, Extends-refl (keys d.issues));
  }

  assignees-Grows : (t : String) (i : ℕ) → Grows d (update_issue_assignees s.env t i d).1
  unfolding statement update_issue_assignees
  assignees-Grows t i = record {
    raw_events = ground arith;
    raw_issues = ground arith;
    issue_events = ground (arith, Extends-refl d.issue_events);
    issue_comments = ground (arith, Extends-refl d.issue_comments);
    issues = ground (
      arith,
      keys-update_issues (λ x. x.id == i) (λ x. record x { assignees = t }) d.issues
          (λ _. (refl, refl)),
      Extends-refl (keys d.issues),
    );
  }

  state-Grows : (t : Option String) (i : ℕ) → Grows d (update_issue_canonical_state s.env t i d).1
  unfolding statement update_issue_canonical_state
  state-Grows t i = record {
    raw_events = ground arith;
    raw_issues = ground arith;
    issue_events = ground (arith, Extends-refl d.issue_events);
    issue_comments = ground (arith, Extends-refl d.issue_comments);
    issues = ground (
      arith,
      keys-update_issues (λ x. x.id == i) (λ x. record x { current_canonical_state = t }) d.issues
          (λ _. (refl, refl)),
      Extends-refl (keys d.issues),
    );
  }

  metadata-Grows : (t : String) (i : ℕ) → Grows d (update_issue_metadata s.env t i d).1
  unfolding statement update_issue_metadata
  metadata-Grows t i = record {
    raw_events = ground arith;
    raw_issues = ground arith;
    issue_events = ground (arith, Extends-refl d.issue_events);
    issue_comments = ground (arith, Extends-refl d.issue_comments);
    issues = ground (
      arith,
      keys-update_issues (λ x. x.id == i) (λ x. record x { metadata_labels = t }) d.issues
          (λ _. (refl, refl)),
      Extends-refl (keys d.issues),
    );
  }

-- What differs in the clock and the metrics alone is the same database.
abbrev SameRows : Db → Db → Type 0
SameRows d e =
    (e.raw_events ≡ d.raw_events)
    × (e.raw_issues ≡ d.raw_issues)
    × (e.issue_events ≡ d.issue_events)
    × (e.issue_comments ≡ d.issue_comments)
    × (e.issues ≡ d.issues)

SameRows-Grows : (d e : Db) → SameRows d e → Grows d e
SameRows-Grows d e h = record {
  raw_events = h.0;
  raw_issues = h.1;
  issue_events = rw h.2 (Extends-refl d.issue_events);
  issue_comments = rw h.3 (Extends-refl d.issue_comments);
  issues = rw h.4 (Extends-refl (keys d.issues));
}

module _ (s : Service) where
  growing_queries : KeepsQueries s Grows
  unfolding statement now_utc record_metric get_raw_issue_by_project_and_iid get_issue_by_id
      get_issue_by_project_and_iid get_last_issue_event
  growing_queries = record {
    frame = record { same = Grows-refl; then_also = Grows-trans };
    now = record { holds = λ d. SameRows-Grows d _ (ground arith) };
    metric = λ m. record { holds = λ d. SameRows-Grows d _ (ground arith) };
    raw_issue = λ p i. record { holds = λ d. SameRows-Grows d _ (ground arith) };
    issue_by_id = λ i. record { holds = λ d. SameRows-Grows d _ (ground arith) };
    issue_by_iid = λ p i. record { holds = λ d. SameRows-Grows d _ (ground arith) };
    upsert = λ p. record { holds = λ d. upsert-Grows s d p };
    assignees = λ t i. record { holds = λ d. assignees-Grows s d t i };
    state = λ t i. record { holds = λ d. state-Grows s d t i };
    metadata = λ t i. record { holds = λ d. metadata-Grows s d t i };
    last_event = λ i. record { holds = λ d. SameRows-Grows d _ (ground arith) };
    event = λ p. record { holds = λ d. event-Grows s d p };
    comment = λ p. record { holds = λ d. comment-Grows s d p };
    unknown = λ l. record { holds = λ d. unknown-Grows s d l };
  }

  -- Whatever event is transformed, and whichever statements fail, the raw events and raw issues stay
  -- as they are, every issue event and every comment that was there stays, unchanged and in its
  -- place, and every issue that was there keeps its place, its project and its number.
  pub transform_event-Grows : (raw : RawEvent) (d : Db) → Grows d (transform_event s raw d).1
  transform_event-Grows raw = (transform_event-Keeps s Grows growing_queries raw).holds
