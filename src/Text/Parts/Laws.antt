-- ===== src/Text/Parts/Laws.antt =====
-- Joined texts and their parts.
use Prim.Native.Char.{Char, code}
use Prim.Native.String.{◌++◌ as ◌<>◌}
use text.Mathlib.TextLemmas.{nil-append, cons-append}
use gitlab_elt.Common.{ℕ, String, some, List, [], ◌∷◌, All, nat_eq, ◌≡◌, ◌≢◌, refl, arith}
use gitlab_elt.Text.Runes.{AllRunes}
use gitlab_elt.Text.Parts.{split, split_two, strip_prefix}

-- The text has no character of this code.
abbrev pub Lacks : ℕ → String → Type 0
Lacks sep = AllRunes (λ c. code c ≢ sep)

-- `strings.Join`
abbrev pub join : Char → List String → String
join sep [] = ""
join sep (p ∷ []) = p
join sep (p ∷ q ∷ ps) = p <> String.◌∷◌ sep (join sep (q ∷ ps))

split-append :
    (sep : Char) (p s : String)
    → Lacks (code sep) p
    → split (code sep) (p <> String.◌∷◌ sep s) ≡ p ∷ split (code sep) s
unfolding split
split-append sep String.[] s h = rw nil-append (ground arith)
split-append sep (String.◌∷◌ c p) s h = rw cons-append (ground (arith, split-append sep p s h.1))

split_whole : (sep : ℕ) (p : String) → Lacks sep p → split sep p ≡ p ∷ []
unfolding split
split_whole sep String.[] h = refl
split_whole sep (String.◌∷◌ c p) h = ground (arith, split_whole sep p h.1)

pub split-join :
    (sep : Char) (ps : List String)
    → ps ≢ []
    → All (Lacks (code sep)) ps
    → split (code sep) (join sep ps) ≡ ps
split-join sep [] h k = absurd (h refl)
split-join sep (p ∷ []) h k = split_whole (code sep) p k.0
split-join sep (p ∷ q ∷ ps) h k =
    rw (split-append sep p (join sep (q ∷ ps)) k.0) (rw (split-join sep (q ∷ ps) (cc) k.1))

pub split_two-append :
    (sep : Char) (l r : String)
    → Lacks (code sep) l
    → split_two (code sep) (l <> String.◌∷◌ sep r) ≡ some (l, r)
unfolding split_two
split_two-append sep String.[] r h = rw nil-append (ground arith)
split_two-append sep (String.◌∷◌ c l) r h =
    rw cons-append (ground (arith, split_two-append sep l r h.1))

pub strip_prefix-append : (p s : String) → strip_prefix p (p <> s) ≡ some s
unfolding strip_prefix
strip_prefix-append String.[] s = rw nil-append
strip_prefix-append (String.◌∷◌ c p) s = rw cons-append (ground (arith, strip_prefix-append p s))
