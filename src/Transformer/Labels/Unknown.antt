-- ===== src/Transformer/Labels/Unknown.antt =====
-- Label events that add a label without a mapping (internal/transformer/service.go).
use gitlab_elt.Common.{
  map, ℕ, suc, String, Bool, false, List, [], ◌∷◌, ◌++◌, ◌==◌, ◌≡◌, string_eq, any, if◌then◌else◌,
}
use gitlab_elt.Domain.{GitlabLabelEvent}
use gitlab_elt.Repository.{
  Db, Metric, UnknownLabelsLog, RawEvent, Issue, IssueEvent, Result, ok, advance,
}
use gitlab_elt.Repository.Silver.{last_event}
use gitlab_elt.Transformer.Labels.Row.{IsRow}
use gitlab_elt.Transformer.Service.{Service}

abbrev has_name : String → UnknownLabelsLog → Bool
has_name label u = u.label_name == label

abbrev pub seen_again : String → UnknownLabelsLog → UnknownLabelsLog
seen_again label u =
    if u.label_name == label then record u { occurrence_count = suc u.occurrence_count } else u

-- The log of the unknown labels after one more occurrence.
abbrev pub labels_with : String → Db → List UnknownLabelsLog
labels_with label d =
    if any (λ (u : UnknownLabelsLog). u.label_name == label) d.unknown_labels
    then map (seen_again label) d.unknown_labels
    else d.unknown_labels
      ++ (record { id = suc d.unknown_label_seq; label_name = label; occurrence_count = 1 } ∷ [])

-- A success that has appended one row with these columns, in the state UNKNOWN, and counted the
-- label, and left the issues.
abbrev pub IsLogged : RawEvent → Issue → GitlabLabelEvent → Db → Result Unit × Db → Type 0
IsLogged raw issue le d (r, d') =
    (r ≡ ok tt)
    × ((row : IssueEvent) × (d'.issue_events ≡ d.issue_events ++ (row ∷ []))
        × IsRow raw issue le "UNKNOWN" (last_event issue.id d.issue_events) row)
    × (d'.unknown_labels ≡ labels_with le.label.name d)
    × (d'.issues ≡ d.issues)

module _ (s : Service) (works : (t : ℕ) → s.env.fails t ≡ false) where
  -- The database after the log of an unknown label.
  abbrev after_log : String → List Metric → Db → Db
  after_log label ms d = record (advance d) {
    unknown_label_seq = suc d.unknown_label_seq;
    unknown_labels = labels_with label d;
    metrics = ms;
  }
