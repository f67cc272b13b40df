-- ===== src/Mapper.antt =====
-- internal/mapper/mapper.go: the mapping of label names to canonical states and metadata keys. The
-- lock that guards the two maps is left out: each method takes it once, for its whole body.
pub mod Laws
use gitlab_elt.Common.{
  String, Bool, true, false, Option, none, some, List, [], ◌∷◌, GoMap, lookup, insert, string_eq,
}
use gitlab_elt.Text.{TextLib, trim_space, map_runes}
use gitlab_elt.Repository.{StateMapping, MetadataMapping, Env, Action, pure, ◌>>=◌, ◌>>◌}
use gitlab_elt.Repository.Mappings.{list_state_mappings, list_metadata_mappings}

pub data LabelType : Type 0 where
  state_label metadata_label unknown_label : LabelType

pub record Mapper : Type 0 where
  pub state_mappings : GoMap String String
  pub metadata_mappings : GoMap String String

unfoldable pub new : Mapper
new = record { state_mappings = []; metadata_mappings = [] }

-- `m[k]` of a map of texts: "" where the key is missing.
abbrev pub text_or_empty : Option String → String
text_or_empty none = ""
text_or_empty (some s) = s

abbrev found : {A : Type 0} → Option A → Bool
found none = false
found (some a) = true

module _ (lib : TextLib) where
  unfoldable pub normalize_label : String → String
  unfolding trim_space map_runes
  normalize_label label = trim_space (lib.strip_marks (map_runes lib.lower_rune label))

  -- The two loops of `LoadFromDB`.
  unfoldable pub load_states : List StateMapping → GoMap String String → GoMap String String
  load_states [] m = m
  load_states (r ∷ rs) m =
      load_states rs (insert (normalize_label r.gitlab_label_name) r.canonical_state m)

  unfoldable pub load_metadata : List MetadataMapping → GoMap String String → GoMap String String
  load_metadata [] m = m
  load_metadata (r ∷ rs) m =
      load_metadata rs (insert (normalize_label r.gitlab_label_name) r.metadata_key m)

  -- Both queries come before the first write, so an error leaves the old maps in place.
  unfoldable pub load_from_db : Env → Mapper → Action Mapper
  unfolding load_states load_metadata
  load_from_db env m = do
    states ← list_state_mappings env
    metadata ← list_metadata_mappings env
    pure (record {
      state_mappings = load_states states [];
      metadata_mappings = load_metadata metadata [];
    })

  unfoldable pub add_state_mapping : String → String → Mapper → Mapper
  add_state_mapping label canonical_state m = record m {
    state_mappings = insert (normalize_label label) canonical_state m.state_mappings;
  }

  unfoldable pub add_metadata_mapping : String → String → Mapper → Mapper
  add_metadata_mapping label metadata_key m = record m {
    metadata_mappings = insert (normalize_label label) metadata_key m.metadata_mappings;
  }

  unfoldable pub map_label : Mapper → String → String × LabelType
  map_label m label =
      let key = normalize_label label in
      elim (lookup key m.state_mappings) [
        | some state ↦ (state, state_label)
        | none ↦ elim (lookup key m.metadata_mappings) [
          | some _ ↦ ("", metadata_label)
          | none ↦ ("UNKNOWN", unknown_label)
        ]
      ]

  unfoldable pub metadata_key : Mapper → String → String
  metadata_key m label = text_or_empty (lookup (normalize_label label) m.metadata_mappings)

  unfoldable pub is_state_label : Mapper → String → Bool
  is_state_label m label = found (lookup (normalize_label label) m.state_mappings)

  unfoldable pub state_for : Mapper → String → String
  state_for m label = text_or_empty (lookup (normalize_label label) m.state_mappings)
