-- ===== src/Transformer/Frame/Rows.antt =====
-- The part of the growth of the Silver tables that whole runs keep (internal/transformer).
use gitlab_elt.Common.{Extends, Extends-refl, Extends-trans}
use gitlab_elt.Repository.{Db, RawEvent}
use gitlab_elt.Repository.Frame.{IsFrame}
use gitlab_elt.Repository.Silent.{SameSilver}
use gitlab_elt.Transformer.Service.{Service, transform_event}
use gitlab_elt.Transformer.Frame.Growth.{keys, transform_event-Grows}

-- The issue events and the comments have rows added at the end at most, and no issue is gone or has
-- another project or number.
pub record KeepsRows (d e : Db) : Type 0 where
  pub issue_events : Extends d.issue_events e.issue_events
  pub issue_comments : Extends d.issue_comments e.issue_comments
  pub issues : Extends (keys d.issues) (keys e.issues)

pub KeepsRows-IsFrame : IsFrame KeepsRows
KeepsRows-IsFrame = record {
  same = λ d. record {
    issue_events = Extends-refl d.issue_events;
    issue_comments = Extends-refl d.issue_comments;
    issues = Extends-refl (keys d.issues);
  };
  then_also = λ d e f g h. record {
    issue_events =
        Extends-trans d.issue_events e.issue_events f.issue_events g.issue_events h.issue_events;
    issue_comments =
        Extends-trans d.issue_comments e.issue_comments f.issue_comments g.issue_comments
          h.issue_comments;
    issues = Extends-trans (keys d.issues) (keys e.issues) (keys f.issues) g.issues h.issues;
  };
}

pub SameSilver-KeepsRows : (d e : Db) → SameSilver d e → KeepsRows d e
SameSilver-KeepsRows d e same = record {
  issue_events = rw same.issue_events (Extends-refl d.issue_events);
  issue_comments = rw same.issue_comments (Extends-refl d.issue_comments);
  issues = rw same.issues (Extends-refl (keys d.issues));
}

pub transform_event-KeepsRows :
    (s : Service) (raw : RawEvent) (d : Db) → KeepsRows d (transform_event s raw d).1
transform_event-KeepsRows s raw d =
    let g = transform_event-Grows s raw d in
    record { issue_events = g.issue_events; issue_comments = g.issue_comments; issues = g.issues }
