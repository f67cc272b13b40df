-- ===== src/Transformer/Service/Metadata.antt =====
-- internal/transformer/service.go, `updateIssueMetadata`.
use gitlab_elt.Common.{
  ℕ, String, Option, none, some, List, [], ◌∷◌, ◌++◌, ◌==◌, string_eq, if◌then◌else◌, GoMap, lookup,
  insert, contains,
}
use gitlab_elt.Repository.{Issue, Action, bad_marshal, or_raise, ◌>>=◌}
use gitlab_elt.Repository.Silver.{get_issue_by_id, update_issue_metadata}
use gitlab_elt.Transformer.Service.Stub.{Service}

abbrev pub labels_or_empty : Option (List String) → List String
labels_or_empty none = []
labels_or_empty (some ls) = ls

-- The label is added behind the labels of its key, unless it is there.
unfoldable pub add_label : String → String → GoMap String (List String) → GoMap String (List String)
add_label key label m =
    let existing = labels_or_empty (lookup key m) in
    if contains label existing then m else insert key (existing ++ (label ∷ [])) m

abbrev metadata_or_empty : Option (GoMap String (List String)) → GoMap String (List String)
metadata_or_empty none = []
metadata_or_empty (some m) = m

module _ (s : Service) where
  -- The stored metadata; a fresh map where the column is NULL or holds no such map. The column is taken
  -- not to hold the JSON value `null`, which no code writes: `Unmarshal` makes the map nil of it, and
  -- the assignment to that map panics.
  unfoldable pub metadata_of : Issue → GoMap String (List String)
  metadata_of issue =
      if issue.metadata_labels == ""
      then []
      else metadata_or_empty (s.codec.decode_metadata issue.metadata_labels)

  unfoldable pub update_metadata : ℕ → String → String → Action (Unit {0})
  update_metadata issue_id key label = do
    issue ← get_issue_by_id s.env issue_id
    metadata ←
        or_raise (s.codec.encode_metadata (add_label key label (metadata_of issue))) bad_marshal
    update_issue_metadata s.env metadata issue_id
