-- ===== src/Transformer/Labels.antt =====
-- What the transformation of a label event does to the Silver tables
-- (internal/transformer/service.go, `transformLabelEvent`).
pub mod Removed
pub mod Row
pub mod Recorded
pub mod Unknown
pub mod Redelivered
use gitlab_elt.Common.{String, some, ◌==◌, ◌≡◌, ◌∙◌, ap, string_eq, eq_iff, if◌then◌else◌, arith}
use gitlab_elt.Domain.{GitlabLabelEvent}
use gitlab_elt.Repository.{Db, RawEvent}
use gitlab_elt.Transformer.Service.{
  Service, transform_event, transform_label_event, transform_label_payload, transform_label,
}

module _ (s : Service) where
  pub transform_event-label :
      (raw : RawEvent) (le : GitlabLabelEvent) (d : Db)
      → raw.event_type ≡ "label_event"
      → s.codec.decode_label_event raw.raw_payload ≡ some le
      → transform_event s raw d ≡ transform_label s raw le d
  unfolding transform_event transform_label_event transform_label_payload
  transform_event-label raw le d type decoded =
      let dispatched : transform_event s raw d ≡ transform_label_event s raw d =
        ground (arith, eq_iff raw.event_type "label_event") in
      dispatched ∙ ap (λ p. transform_label_payload s raw p d) decoded
