-- ===== src/Transformer/Notes.antt =====
-- What the transformation of a note does to the Silver tables
-- (internal/transformer/service.go, `transformNote`).
pub mod Comments
pub mod Histories
use gitlab_elt.Common.{
  false, true, some, ◌==◌, ◌≡◌, ◌∙◌, refl, ap, string_eq, eq_iff, if◌then◌else◌, arith,
}
use gitlab_elt.Domain.{GitlabNote}
use gitlab_elt.Repository.{Db, RawEvent}
use gitlab_elt.Transformer.Service.{
  Service, transform_event, transform_note, transform_note_payload,
}

module _ (s : Service) where
  pub transform_event-note :
      (raw : RawEvent) (note : GitlabNote) (d : Db)
      → raw.event_type ≡ "note"
      → s.codec.decode_note raw.raw_payload ≡ some note
      → transform_event s raw d ≡ transform_note_payload s raw (some note) d
  unfolding transform_event transform_note
  transform_event-note raw note d type decoded =
      let no_label : (raw.event_type == "label_event") ≡ false =
        ap (λ t. t == "label_event") type in
      let is_note : (raw.event_type == "note") ≡ true = ap (λ t. t == "note") type in
      rw (no_label, is_note, decoded) refl
