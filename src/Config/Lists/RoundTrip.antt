-- ===== src/Config/Lists/RoundTrip.antt =====
-- Lists of numbers that are printed and read back (internal/config/config.go).
use text.Mathlib.TextLemmas.{cons-ne-nil, append-ne-nil_of_right_ne-nil}
use gitlab_elt.Common.{ℕ, ◌^◌, ◌<◌, ◌≢◌, ◌≡◌, refl, ap, List, [], ◌∷◌, map, All, arith, eq_iff}
use gitlab_elt.Text.{trim_space}
use gitlab_elt.Text.Runes.{AllRunes-weaken, trim_space-solid}
use gitlab_elt.Text.Integers.{atoi, format_int}
use gitlab_elt.Text.Integers.RoundTrip.{atoi-format_int, IsPlain, format_int-IsPlain}
use gitlab_elt.Text.Parts.{split}
use gitlab_elt.Text.Parts.Laws.{Lacks, join, split-join}
use gitlab_elt.Config.Types.{ok}
use gitlab_elt.Config.Lists.{parse_entries, parse_int_list}

lacking : (n : ℕ) → Lacks b',' (format_int n)
lacking n = AllRunes-weaken IsPlain _ (format_int n) (λ c h. h.0) (format_int-IsPlain n)

trimmed : (n : ℕ) → trim_space (format_int n) ≡ format_int n
trimmed n =
    trim_space-solid _
      (AllRunes-weaken IsPlain _ (format_int n) (λ c h. h.1) (format_int-IsPlain n))

map-ne-nil : (ns : List ℕ) → ns ≢ [] → map format_int ns ≢ []
map-ne-nil [] ne = absurd (ne refl)
map-ne-nil (n ∷ ns) ne = cc

All-map : (ns : List ℕ) → All (Lacks b',') (map format_int ns)
All-map [] = tt
All-map (n ∷ ns) = (lacking n, All-map ns)

parse_entries-map :
    (ns : List ℕ) → All (λ n. n < 2 ^ 64) ns → parse_entries (map format_int ns) ≡ ok ns
unfolding parse_entries
parse_entries-map [] h = refl
parse_entries-map (n ∷ ns) h = rw (trimmed n, atoi-format_int n h.0, parse_entries-map ns h.1)

format_int-ne-nil : (n : ℕ) → n < 2 ^ 64 → format_int n ≢ ""
format_int-ne-nil n h e = unfold atoi in cc (ap atoi e, atoi-format_int n h)

join-ne-nil : (ns : List ℕ) → ns ≢ [] → All (λ n. n < 2 ^ 64) ns → join "," (map format_int ns) ≢ ""
join-ne-nil [] ne h = absurd (ne refl)
join-ne-nil (n ∷ []) ne h = format_int-ne-nil n h.0
join-ne-nil (n ∷ m ∷ ns) ne h = append-ne-nil_of_right_ne-nil (format_int n) (cons-ne-nil _ _)

-- A list of `int`s, one at least, that is printed with commas between is read back as it was.
pub parse_int_list-join :
    (ns : List ℕ)
    → ns ≢ []
    → All (λ n. n < 2 ^ 64) ns
    → parse_int_list (join "," (map format_int ns)) ≡ ok ns
unfolding parse_int_list
parse_int_list-join ns ne h =
    let printed : map format_int ns ≢ [] = map-ne-nil ns ne in
    let parts : split b',' (join "," (map format_int ns)) ≡ map format_int ns =
      split-join "," (map format_int ns) printed (All-map ns) in
    ground (
      arith,
      join-ne-nil ns ne h,
      eq_iff (join "," (map format_int ns)) "",
      ap parse_entries parts,
      parse_entries-map ns h,
    )
