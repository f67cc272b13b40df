-- ===== src/Metrics/Documented.antt =====
-- What the worker relies on of the client library of Prometheus.
use gitlab_elt.Common.{
  String, Bool, true, not, ◌&&◌, Option, none, some, List, [], ◌∷◌, map, contains, string_eq, ◌≡◌,
}
use gitlab_elt.Metrics.Registry.{Collector, name_of, Prometheus}

-- The labels with their values, in order, where there are as many of both.
unfoldable pub zip_labels : List String → List String → Option (List (String × String))
zip_labels [] [] = some []
zip_labels [] (v ∷ vs) = none
zip_labels (l ∷ ls) [] = none
zip_labels (l ∷ ls) (v ∷ vs) = elim (zip_labels ls vs) [
  | none ↦ none
  | some rest ↦ some ((l, v) ∷ rest)
]

abbrev pub are_distinct : List String → Bool
are_distinct [] = true
are_distinct (n ∷ names) = not (contains n names) && are_distinct names

-- What the documentation of the client library says: a new registerer takes collectors whose names
-- differ, and as many values as labels give the series in which each label has its value.
pub record IsDocumented (lib : Prometheus) : Type 0 where
  pub takes_distinct :
      (cs : List Collector) → are_distinct (map name_of cs) ≡ true → lib.registers cs ≡ true
  pub pairs_labels :
      (ls vs : List String) {labels : List (String × String)}
      → zip_labels ls vs ≡ some labels
      → lib.with_label_values ls vs ≡ some labels
