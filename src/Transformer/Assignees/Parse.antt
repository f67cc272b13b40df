-- ===== src/Transformer/Assignees/Parse.antt =====
-- internal/transformer/assignees.go, `parseAssigneeChangeFromSystemNote`: the two patterns of the
-- package `regexp` that it uses are each a literal and then `(\w+)`.
pub mod Laws
use Prim.Native.Char.{Char, code}
use Prim.Native.String.{String}
use gitlab_elt.Common.{
  ℕ, suc, ◌+◌, ◌-◌, Bool, true, false, ◌&&◌, ◌||◌, Option, none, some, List, [], ◌∷◌, ◌++◌, map,
  leb, ◌==◌, nat_eq, string_eq, if◌then◌else◌,
}
use gitlab_elt.Text.{TextLib, map_runes}
use gitlab_elt.Text.Parts.{strip_prefix}
use gitlab_elt.Transformer.Assignees.Types.{AssigneeChange}

abbrev pub size : String → ℕ
size String.[] = 0
size (String.◌∷◌ c s) = suc (size s)

-- The class `\w`: ASCII letters, digits and the underscore.
unfoldable pub is_word : Char → Bool
is_word c =
    let n = code c in
    (leb b'a' n && leb n b'z')
    || (leb b'A' n && leb n b'Z')
    || (leb b'0' n && leb n b'9')
    || n == b'_'

-- The longest prefix of word characters, which is what `\w+` takes.
unfoldable pub take_word : String → String
unfolding is_word
take_word String.[] = ""
take_word (String.◌∷◌ c s) = let rest = take_word s in if is_word c then String.◌∷◌ c rest else ""

abbrev non_empty : String → Option String
non_empty w = if w == "" then none else some w

word_of : Option String → Option String
unfolding take_word
word_of none = none
word_of (some rest) = non_empty (take_word rest)

-- The group of the match that begins here, if there is one.
unfoldable pub match_at : String → String → Option String
unfolding strip_prefix word_of
match_at literal s = word_of (strip_prefix literal s)

abbrev pub cons_match : Option String → List String → List String
cons_match none ws = ws
cons_match (some w) ws = w ∷ ws

-- How many characters of the match come after its first.
abbrev pub match_tail : String → Option String → ℕ
match_tail literal none = 0
match_tail literal (some w) = size literal + size w - 1

-- `FindAllStringSubmatch(body, -1)`, the group of each match: from the left, and no match begins
-- inside the last one, whose remaining characters `skip` counts.
unfoldable pub find_all : String → String → ℕ → List String
unfolding match_at
find_all literal String.[] skip = []
find_all literal (String.◌∷◌ c s) ℕ.zero =
    let m = match_at literal (String.◌∷◌ c s) in
    cons_match m (find_all literal s (match_tail literal m))
find_all literal (String.◌∷◌ c s) (suc skip) = find_all literal s skip

abbrev pub assigned_to_pattern : String
assigned_to_pattern = "assigned to @"

abbrev pub unassigned_pattern : String
unassigned_pattern = "unassigned @"

abbrev pub with_action : String → String → AssigneeChange
with_action action username = record { username = username; action = action }

unfoldable pub parse_assignee_change_from_system_note : TextLib → String → List AssigneeChange
unfolding find_all map_runes
parse_assignee_change_from_system_note lib body =
    let body' = map_runes lib.lower_rune body in
    map (with_action "assigned") (find_all assigned_to_pattern body' 0)
    ++ map (with_action "unassigned") (find_all unassigned_pattern body' 0)
