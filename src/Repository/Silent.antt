-- ===== src/Repository/Silent.antt =====
-- Changes of the database that the Silver tables of issues do not notice.
use gitlab_elt.Common.{◌∙◌, ◌≡◌, refl}
use gitlab_elt.Repository.Connection.{Db}
use gitlab_elt.Repository.Frame.{IsFrame}
use gitlab_elt.Repository.Keys.{IsConsistent}

-- The issues, their events and comments and the unknown labels are the same.
pub record SameSilver (d e : Db) : Type 0 where
  pub issues : e.issues ≡ d.issues
  pub issue_events : e.issue_events ≡ d.issue_events
  pub issue_comments : e.issue_comments ≡ d.issue_comments
  pub unknown_labels : e.unknown_labels ≡ d.unknown_labels

pub SameSilver-IsFrame : IsFrame SameSilver
SameSilver-IsFrame = record {
  same = λ d. record {
    issues = refl;
    issue_events = refl;
    issue_comments = refl;
    unknown_labels = refl;
  };
  then_also = λ d e f g h. record {
    issues = h.issues ∙ g.issues;
    issue_events = h.issue_events ∙ g.issue_events;
    issue_comments = h.issue_comments ∙ g.issue_comments;
    unknown_labels = h.unknown_labels ∙ g.unknown_labels;
  };
}

pub SameSilver-IsConsistent : (d e : Db) → SameSilver d e → IsConsistent d → IsConsistent e
SameSilver-IsConsistent d e same c = record {
  issue_keys = rw same.issues c.issue_keys;
  event_keys = rw same.issue_events c.event_keys;
  event_ids = rw same.issue_events c.event_ids;
  note_keys = rw same.issue_comments c.note_keys;
  label_keys = rw same.unknown_labels c.label_keys;
}

-- The four tables as a tuple, which a computation gives at once.
pub same_tables-SameSilver :
    (d e : Db)
    → (e.issues ≡ d.issues)
      × (e.issue_events ≡ d.issue_events)
      × (e.issue_comments ≡ d.issue_comments)
      × (e.unknown_labels ≡ d.unknown_labels)
    → SameSilver d e
same_tables-SameSilver d e (issues, events, comments, labels) = record {
  issues = issues;
  issue_events = events;
  issue_comments = comments;
  unknown_labels = labels;
}
