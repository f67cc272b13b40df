-- ===== src/Config/Lists.antt =====
-- internal/config/config.go, `parseIntList`: numbers separated by commas.
pub mod RoundTrip
use gitlab_elt.Common.{ℕ, String, Option, List, [], ◌∷◌, ◌==◌, string_eq, if◌then◌else◌}
use gitlab_elt.Text.{trim_space}
use gitlab_elt.Text.Integers.{atoi}
use gitlab_elt.Text.Parts.{split}
use gitlab_elt.Config.Types.{Error, empty_list, Result, ok, err, ◌>>=◌}
use gitlab_elt.Config.Variables.{integer}

-- The loop: an entry that is no integer ends it.
unfoldable pub parse_entries : List String → Result (List ℕ)
parse_entries [] = ok []
parse_entries (part ∷ parts) =
    let p = trim_space part in do n ← integer p (atoi p); rest ← parse_entries parts; ok (n ∷ rest)

unfoldable pub parse_int_list : String → Result (List ℕ)
unfolding parse_entries
parse_int_list s = if s == "" then err empty_list else parse_entries (split b',' s)
