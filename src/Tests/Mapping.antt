-- ===== src/Tests/Mapping.antt =====
-- The mapper and the detectors on sample data.
use gitlab_elt.Common.{◌+◌, ◌%◌, ◌^◌, some, [], ◌∷◌, ◌≡◌, refl, arith, string_eq, insert}
use gitlab_elt.Mapper.{normalize_label, load_from_db, load_states, load_metadata, new}
use gitlab_elt.Repository.{IssueEvent, ok, statement}
use gitlab_elt.Repository.Mappings.{list_state_mappings, list_metadata_mappings}
use gitlab_elt.Text.{trim_space, trim_left, trim_right, is_space, map_runes}
use gitlab_elt.Transformer.EdgeCases.{calculate_cycle_count, int32_or_zero}
use gitlab_elt.Transformer.EdgeCases.Laws.{IsChained, last_of, reworks, cycle_count-reworks}
use gitlab_elt.Tests.Sample.{text_lib, env, db, reviewed, recorded}

loaded :
    (load_from_db text_lib env new db).0
    ≡ ok (record { state_mappings = ("doing", "IN_PROGRESS") ∷ []; metadata_mappings = [] })
unfolding load_from_db load_states load_metadata list_state_mappings list_metadata_mappings
    statement normalize_label trim_space trim_left trim_right is_space map_runes insert
loaded = refl

-- Back to work from review.
abbrev reworked : IssueEvent
reworked = record recorded { mapped_canonical_state = "IN_PROGRESS"; cycle_count = some 1 }

reworked-IsChained : IsChained reviewed (reworked ∷ [])
unfolding calculate_cycle_count
reworked-IsChained = (refl, tt)

cycle_count-reworks_example :
    int32_or_zero (last_of reviewed (reworked ∷ [])).cycle_count
    ≡ (int32_or_zero reviewed.cycle_count + reworks reviewed (reworked ∷ [])) % 2 ^ 32
cycle_count-reworks_example =
    cycle_count-reworks reviewed (reworked ∷ []) (omega arith) reworked-IsChained
