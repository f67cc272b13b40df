-- ===== src/Tests/Assigning.antt =====
-- The assignee history and the parser of system notes on sample data.
use gitlab_elt.Common.{true, false, List, [], ◌∷◌, ◌++◌, ◌≡◌, refl, contains, string_eq, map}
use gitlab_elt.Text.{map_runes}
use gitlab_elt.Transformer.Assignees.{
  AssigneeHistory, AssigneeChange, empty, handle_assigned, apply_changes, apply_assignee_change,
}
use gitlab_elt.Transformer.Assignees.Invariant.{IsValid, empty-IsValid, apply_changes-IsValid}
use gitlab_elt.Transformer.Assignees.Laws.{contains-apply_changes}
use gitlab_elt.Transformer.Assignees.Parse.{
  parse_assignee_change_from_system_note, with_action, find_all, assigned_to_pattern,
  unassigned_pattern, is_word,
}
use gitlab_elt.Transformer.Assignees.Parse.Laws.{AllWord, EndsWord, parse-assigned}
use gitlab_elt.Tests.Sample.{text_lib}

-- Ana is taken off and Bob put on.
abbrev handover : List AssigneeChange
handover = with_action "assigned" "bob" ∷ with_action "unassigned" "ana" ∷ []

abbrev held : AssigneeHistory
held = (handle_assigned empty "ana" 1_000).0

contains-apply_changes_example :
    contains "bob" (apply_changes handover 5_000 (held, false)).0.current ≡ true
contains-apply_changes_example = contains-apply_changes handover 5_000 held false "bob"

apply_changes-IsValid_example : IsValid (apply_changes handover 5_000 (empty, false)).0
apply_changes-IsValid_example = apply_changes-IsValid handover 5_000 empty false empty-IsValid

-- An action that is neither of the two.
moved_unmodified : (apply_changes (with_action "moved" "ana" ∷ []) 5_000 (empty, false)).1 ≡ false
unfolding apply_changes apply_assignee_change
moved_unmodified = refl

lowered : map_runes text_lib.lower_rune "assigned to @john.doe" ≡ "assigned to @john.doe"
unfolding map_runes
lowered = refl

john-AllWord : AllWord "john"
unfolding is_word
john-AllWord = (refl, (refl, (refl, (refl, tt))))

dot-EndsWord : EndsWord ".doe"
unfolding is_word
dot-EndsWord = refl

parse-assigned_example :
    parse_assignee_change_from_system_note text_lib "assigned to @john.doe"
    ≡ with_action "assigned" "john"
      ∷ (map (with_action "assigned") (find_all assigned_to_pattern ".doe" 0)
          ++ map (with_action "unassigned") (find_all unassigned_pattern "assigned to @john.doe" 0))
parse-assigned_example =
    parse-assigned text_lib "assigned to @john.doe" "john" ".doe" lowered (λ e. cc e) john-AllWord
      dot-EndsWord
