-- ===== src/Transformer/Assignees/Parse/Laws.antt =====
-- What the patterns of internal/transformer/assignees.go find.
use Prim.Native.Char.{Char}
use Prim.Native.String.{String, ◌++◌ as ◌<>◌}
use text.Mathlib.TextLemmas.{nil-append, cons-append, append_assoc as text-append_assoc}
use gitlab_elt.Common.{
  ℕ, zero, suc, ◌+◌, ◌-◌, ◌≡◌, ◌≢◌, refl, ap, ◌⊎◌, inl, inr, Bool-cases, ◌∙◌, true, false, Option,
  none, some, List, [], ◌∷◌, ◌++◌, map, ◌==◌, nat_eq, string_eq, eq_iff, All, All-append, arith,
}
use gitlab_elt.Text.{TextLib, map_runes}
use gitlab_elt.Text.Parts.{strip_prefix}
use gitlab_elt.Text.Parts.Laws.{strip_prefix-append}
use gitlab_elt.Transformer.Assignees.Types.{AssigneeChange}
use gitlab_elt.Transformer.Assignees.Parse.{
  size, is_word, take_word, non_empty, word_of, match_at, cons_match, match_tail, find_all,
  assigned_to_pattern, unassigned_pattern, with_action, parse_assignee_change_from_system_note,
}

-- Every character is a letter, a digit or an underscore.
abbrev pub AllWord : String → Type 0
AllWord String.[] = Unit
AllWord (String.◌∷◌ c s) = (is_word c ≡ true) × AllWord s

-- The text does not begin with a word character.
abbrev pub EndsWord : String → Type 0
EndsWord String.[] = Unit
EndsWord (String.◌∷◌ c s) = is_word c ≡ false

take_word-AllWord : (s : String) → AllWord (take_word s)
unfolding take_word
take_word-AllWord String.[] = tt
take_word-AllWord (String.◌∷◌ c s) = elim (Bool-cases (is_word c)) [
  | inl w ↦ rw w (w, take_word-AllWord s)
  | inr n ↦ rw n tt
]

take_word-append : (w rest : String) → AllWord w → EndsWord rest → take_word (w <> rest) ≡ w
unfolding take_word
take_word-append String.[] String.[] h e = refl
take_word-append String.[] (String.◌∷◌ c s) h e = rw (nil-append, e)
take_word-append (String.◌∷◌ c w) rest h e = rw (cons-append, h.0, take_word-append w rest h.1 e)

find_all-skip : (p a b : String) → find_all p (a <> b) (size a) ≡ find_all p b 0
unfolding find_all
find_all-skip p String.[] b = rw nil-append
find_all-skip p (String.◌∷◌ c a) b = rw cons-append (find_all-skip p a b)

size-append : (a b : String) → size (a <> b) ≡ size a + size b
size-append String.[] b = rw nil-append (omega arith)
size-append (String.◌∷◌ c a) b = rw cons-append (omega (arith, size-append a b))

match_at-append :
    (p w rest : String)
    → w ≢ ""
    → AllWord w
    → EndsWord rest
    → match_at p (p <> (w <> rest)) ≡ some w
unfolding match_at
match_at-append p w rest ne all ends =
    let e : match_at p (p <> (w <> rest)) ≡ word_of (some (w <> rest)) =
      ap word_of (strip_prefix-append p (w <> rest)) in
    e ∙ ap non_empty (take_word-append w rest all ends) ∙ ground (arith, eq_iff w "")

-- A literal and a word that is not followed by another word character give one match, the word, and
-- the search goes on behind it.
pub find_all-append :
    (c : Char) (p w rest : String)
    → w ≢ ""
    → AllWord w
    → EndsWord rest
    → find_all (String.◌∷◌ c p) (String.◌∷◌ c p <> (w <> rest)) 0
      ≡ w ∷ find_all (String.◌∷◌ c p) rest 0
unfolding find_all
find_all-append c p w rest ne all ends =
    let pre = String.◌∷◌ c p in
    let m : match_at pre (String.◌∷◌ c (p <> (w <> rest))) ≡ some w =
      rw cons-append at (match_at-append pre w rest ne all ends) in
    let tail : size pre + size w - 1 ≡ size (p <> w) = omega (arith, size-append p w) in
    rw cons-append (
      rw m (
        rw (tail, ← text-append_assoc p w rest)
          (ap (λ ws. w ∷ ws) (find_all-skip pre (p <> w) rest))))

-- A user name that the patterns may give: not empty, and of word characters alone.
abbrev pub IsUsername : String → Type 0
IsUsername w = (w ≢ "") × AllWord w

word_of-IsUsername :
    (rest : Option String) (ws : List String)
    → All IsUsername ws
    → All IsUsername (cons_match (word_of rest) ws)
unfolding word_of
word_of-IsUsername none ws h = h
word_of-IsUsername (some rest) ws h = elim (Bool-cases (take_word rest == "")) [
  | inl e ↦ rw e h
  | inr n ↦ rw n ((λ e. cc ((eq_iff (take_word rest) "").1 e), take_word-AllWord rest), h)
]

match_at-IsUsername :
    (p s : String) (ws : List String)
    → All IsUsername ws
    → All IsUsername (cons_match (match_at p s) ws)
unfolding match_at
match_at-IsUsername p s ws h = word_of-IsUsername (strip_prefix p s) ws h

find_all-IsUsername : (p s : String) (skip : ℕ) → All IsUsername (find_all p s skip)
unfolding find_all
find_all-IsUsername p String.[] skip = tt
find_all-IsUsername p (String.◌∷◌ c s) zero =
    match_at-IsUsername p (String.◌∷◌ c s) _
      (find_all-IsUsername p s (match_tail p (match_at p (String.◌∷◌ c s))))
find_all-IsUsername p (String.◌∷◌ c s) (suc skip) = find_all-IsUsername p s skip

-- A change as the code handles it: a user name and one of the two actions.
abbrev pub IsChange : AssigneeChange → Type 0
IsChange c = IsUsername c.username × ((c.action ≡ "assigned") ⊎ (c.action ≡ "unassigned"))

with_assigned-IsChange :
    (ws : List String) → All IsUsername ws → All IsChange (map (with_action "assigned") ws)
with_assigned-IsChange [] h = tt
with_assigned-IsChange (w ∷ ws) h = ((h.0, inl refl), with_assigned-IsChange ws h.1)

with_unassigned-IsChange :
    (ws : List String) → All IsUsername ws → All IsChange (map (with_action "unassigned") ws)
with_unassigned-IsChange [] h = tt
with_unassigned-IsChange (w ∷ ws) h = ((h.0, inr refl), with_unassigned-IsChange ws h.1)

-- Every change parsed from a system note names a user by word characters alone, at least one, and
-- is an assignment or an unassignment, so the default of `applyAssigneeChange` is never taken.
pub parse-IsChange :
    (lib : TextLib) (body : String) → All IsChange (parse_assignee_change_from_system_note lib body)
unfolding parse_assignee_change_from_system_note
parse-IsChange lib body =
    let body' = map_runes lib.lower_rune body in
    All-append IsChange (map (with_action "assigned") (find_all assigned_to_pattern body' 0)) _
      (with_assigned-IsChange _ (find_all-IsUsername assigned_to_pattern body' 0))
      (with_unassigned-IsChange _ (find_all-IsUsername unassigned_pattern body' 0))

-- In a note that says `assigned to @` and a name, the user is the part of the name before its first
-- character that is no letter, digit or underscore, such as the dot of `john.doe`.
pub parse-assigned :
    (lib : TextLib) (body w rest : String)
    → map_runes lib.lower_rune body ≡ assigned_to_pattern <> (w <> rest)
    → w ≢ ""
    → AllWord w
    → EndsWord rest
    → parse_assignee_change_from_system_note lib body
      ≡ with_action "assigned" w
        ∷ (map (with_action "assigned") (find_all assigned_to_pattern rest 0)
            ++ map
                (with_action "unassigned")
                (find_all unassigned_pattern (assigned_to_pattern <> (w <> rest)) 0))
unfolding parse_assignee_change_from_system_note
parse-assigned lib body w rest lowered ne all ends =
    rw (lowered, find_all-append _ "ssigned to @" w rest ne all ends)
