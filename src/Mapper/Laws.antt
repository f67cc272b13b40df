-- ===== src/Mapper/Laws.antt =====
-- What the label mapper of internal/mapper/mapper.go answers.
use gitlab_elt.Common.{
  String, ◌≡◌, refl, ap, ap₂, ◌∙◌, true, false, Option, none, some, List, [], ◌∷◌, arith, lookup,
  insert, lookup-insert, string_eq, ◌==◌, if◌then◌else◌,
}
use gitlab_elt.Text.{TextLib}
use gitlab_elt.Repository.{StateMapping, MetadataMapping, Env, Db, ok, statement}
use gitlab_elt.Repository.Mappings.{list_state_mappings, list_metadata_mappings}
use gitlab_elt.Mapper.{
  LabelType, state_label, metadata_label, unknown_label, Mapper, normalize_label, load_states,
  load_metadata, load_from_db, add_state_mapping, map_label, metadata_key, is_state_label,
  state_for,
}

module _ (lib : TextLib) where
  -- What the other queries have to answer for a class.
  abbrev pub IsCoherent : Mapper → String → String × LabelType → Type 0
  IsCoherent m label (state, state_label) =
      (is_state_label lib m label ≡ true) × (state ≡ state_for lib m label)
  IsCoherent m label (state, metadata_label) =
      (is_state_label lib m label ≡ false) × (state ≡ "") × (state_for lib m label ≡ "")
  IsCoherent m label (state, unknown_label) =
      (is_state_label lib m label ≡ false)
      × (state ≡ "UNKNOWN")
      × (metadata_key lib m label ≡ "")
      × (state_for lib m label ≡ "")

  -- The answer of `map_label` agrees with the three other queries of the mapper on the same label: with
  -- `is_state_label` and `state_for` for a state label, which has that state; with both for a
  -- metadata label, whose state is empty; and with all three for an unknown label, whose state is
  -- `UNKNOWN`.
  pub map_label-IsCoherent :
      (m : Mapper) (label : String) → IsCoherent m label (map_label lib m label)
  unfolding map_label is_state_label state_for metadata_key
  map_label-IsCoherent m label = ground arith

  -- A state mapping that is added holds for all labels with the normal form of its own, before any
  -- other mapping, and changes the answer for no other label.
  pub map_label-add_state_mapping :
      (m : Mapper) (added label state : String)
      → map_label lib (add_state_mapping lib added state m) label ≡ (
          if normalize_label lib added == normalize_label lib label
          then (state, state_label)
          else map_label lib m label)
  unfolding map_label add_state_mapping
  map_label-add_state_mapping m added label state = ground (
    arith,
    lookup-insert (normalize_label lib added) (normalize_label lib label) state m.state_mappings,
  )

  -- The rows of the table as a map: the last row whose name has the same normal form counts.
  abbrev pub last_state : String → List StateMapping → Option String → Option String
  last_state key [] found_before = found_before
  last_state key (r ∷ rs) found_before = last_state key rs (
      if normalize_label lib r.gitlab_label_name == key
      then some r.canonical_state
      else found_before)

  pub lookup-load_states :
      (key : String) (rows : List StateMapping) (m : List (String × String))
      → lookup key (load_states lib rows m) ≡ last_state key rows (lookup key m)
  unfolding load_states
  lookup-load_states key [] m = refl
  lookup-load_states key (r ∷ rs) m =
      lookup-load_states key rs
        (insert (normalize_label lib r.gitlab_label_name) r.canonical_state m)
      ∙ ap (last_state key rs)
          (lookup-insert (normalize_label lib r.gitlab_label_name) key r.canonical_state m)

  abbrev pub last_key : String → List MetadataMapping → Option String → Option String
  last_key key [] found_before = found_before
  last_key key (r ∷ rs) found_before =
      last_key key rs (
        if normalize_label lib r.gitlab_label_name == key
        then some r.metadata_key
        else found_before)

  pub lookup-load_metadata :
      (key : String) (rows : List MetadataMapping) (m : List (String × String))
      → lookup key (load_metadata lib rows m) ≡ last_key key rows (lookup key m)
  unfolding load_metadata
  lookup-load_metadata key [] m = refl
  lookup-load_metadata key (r ∷ rs) m =
      lookup-load_metadata key rs
        (insert (normalize_label lib r.gitlab_label_name) r.metadata_key m)
      ∙ ap (last_key key rs)
          (lookup-insert (normalize_label lib r.gitlab_label_name) key r.metadata_key m)

  -- How the two tables classify a label: the state table is asked first.
  abbrev pub classify : Option String → Option String → String × LabelType
  classify (some state) _ = (state, state_label)
  classify none (some _) = ("", metadata_label)
  classify none none = ("UNKNOWN", unknown_label)

  pub map_label-classify :
      (m : Mapper) (label : String)
      → map_label lib m label
        ≡ classify
            (lookup (normalize_label lib label) m.state_mappings)
            (lookup (normalize_label lib label) m.metadata_mappings)
  unfolding map_label
  map_label-classify m label = ground arith

  load_from_db_ok :
      (env : Env) (m : Mapper) (d : Db) (loaded : Mapper)
      → (load_from_db lib env m d).0 ≡ ok loaded
      → (loaded.state_mappings ≡ load_states lib d.state_mappings [])
        × (loaded.metadata_mappings ≡ load_metadata lib d.metadata_mappings [])
  unfolding load_from_db list_state_mappings list_metadata_mappings statement
  load_from_db_ok env m d loaded h = ground arith

  -- A load that succeeds gives a mapper that classifies every label as the two tables do, the last
  -- row with the label's normal form counting in each, whatever the mapper held before.
  pub load_from_db-classify :
      (env : Env) (m : Mapper) (d : Db) (label : String) {loaded : Mapper}
      → (load_from_db lib env m d).0 ≡ ok loaded
      → map_label lib loaded label
        ≡ classify
            (last_state (normalize_label lib label) d.state_mappings none)
            (last_key (normalize_label lib label) d.metadata_mappings none)
  unfolding lookup
  load_from_db-classify env m d label {loaded} h =
      let key = normalize_label lib label in
      let (states, keys) = load_from_db_ok env m d loaded h in
      map_label-classify loaded label
      ∙ ap₂ classify (ap (lookup key) states ∙ lookup-load_states key d.state_mappings [])
          (ap (lookup key) keys ∙ lookup-load_metadata key d.metadata_mappings [])
