-- ===== src/Tests/Noting.antt =====
-- Notes on the sample issue: a comment of a user, and a note that tells of an assignee.
use gitlab_elt.Common.{
  ℕ, String, true, false, Option, none, some, ◌==◌, string_eq, if◌then◌else◌, refl,
}
use gitlab_elt.Domain.{GitlabNote}
use gitlab_elt.Repository.{RawEvent}
use gitlab_elt.Transformer.Notes.Comments.{IsCommented, transform_event-IsCommented}
use gitlab_elt.Transformer.Service.{Service, transform_event}
use gitlab_elt.Tests.Sample.{ana, codec, service, db, raw, issue}

abbrev hello : GitlabNote
hello = record { id = 21; body = "hello"; author = ana; created_at = 6_000_000; system = false }

abbrev assigned : GitlabNote
assigned = record hello { id = 22; body = "assigned to @bob"; system = true }

abbrev decode_note : String → Option GitlabNote
decode_note t = if t == "hello" then some hello else if t == "assigned" then some assigned else none

abbrev noting : Service
noting = record service { codec = record codec { decode_note = decode_note } }

abbrev raw_note : ℕ → String → RawEvent
raw_note id payload = record (raw id payload) { event_type = "note" }

transform_event-IsCommented_example :
    IsCommented issue hello db (transform_event noting (raw_note 3 "hello") db)
transform_event-IsCommented_example =
    transform_event-IsCommented noting (λ t. refl) (raw_note 3 "hello") hello issue db refl refl
      refl refl
