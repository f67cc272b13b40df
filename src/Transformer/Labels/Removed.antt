-- ===== src/Transformer/Labels/Removed.antt =====
-- Label events with the action `remove` (internal/transformer/service.go).
use gitlab_elt.Common.{String, false, some, ◌==◌, ◌≡◌, string_eq, eq_iff, arith, ◌∙◌, ap}
use gitlab_elt.Domain.{GitlabLabelEvent}
use gitlab_elt.Repository.{Db, RawEvent, ok}
use gitlab_elt.Transformer.Service.{
  Service, transform_event, transform_label, transform_label_state, log_unknown_label, label_added,
  label_removed,
}
use gitlab_elt.Transformer.EdgeCases.{determine_canonical_state}
use gitlab_elt.Transformer.Labels.{transform_event-label}

module _ (s : Service) where
  removed_state :
      (raw : RawEvent) (le : GitlabLabelEvent) (state : String) (d : Db)
      → le.action ≡ "remove"
      → transform_label_state s raw le state d ≡ (ok tt, d)
  unfolding transform_label_state log_unknown_label
  removed_state raw le state d h =
      let no_add : (le.action == "add") ≡ false = ap (λ a. a == "add") h in
      ground (arith, no_add, eq_iff le.action "remove")

  -- A well-formed label event with the action `remove` succeeds and leaves the whole database as it
  -- is, the cached state of its issue and the metrics included.
  pub transform_event-remove :
      (raw : RawEvent) (le : GitlabLabelEvent) (d : Db)
      → raw.event_type ≡ "label_event"
      → s.codec.decode_label_event raw.raw_payload ≡ some le
      → le.action ≡ "remove"
      → transform_event s raw d ≡ (ok tt, d)
  unfolding transform_label
  transform_event-remove raw le d type decoded h =
      transform_event-label s raw le d type decoded
      ∙ removed_state raw le
          (determine_canonical_state s.lib s.mapper le.action (label_added le) (label_removed le)) d
          h
