-- ===== src/Config/Telemetry/Headers.antt =====
-- The maps that are read from `key=value` pairs (internal/config/config.go).
use gitlab_elt.Common.{
  String, Option, none, some, List, [], ◌∷◌, All, GoMap, insert, ◌==◌, string_eq, eq_iff,
  Bool-cases, Option-cases, ◌≡◌, ◌≢◌, inl, inr, subst, arith,
}
use gitlab_elt.Text.{trim_space}
use gitlab_elt.Text.Parts.{split, split_two}
use gitlab_elt.Config.Types.{ok}
use gitlab_elt.Config.Variables.{Os}
use gitlab_elt.Config.Telemetry.{
  header_of, attribute_of, parse_pairs, parse_otel_headers, parse_attributes, trimmed_env,
  headers_env, attributes_env,
}

-- Every key of a map has the property, with its value.
module _ (P : String → String → Type 0) where
  abbrev pub AllEntries : GoMap String String → Type 0
  AllEntries = All (λ e. P e.0 e.1)

  insert-AllEntries :
      (k v : String) (m : GoMap String String) → P k v → AllEntries m → AllEntries (insert k v m)
  unfolding insert
  insert-AllEntries k v [] p h = (p, tt)
  insert-AllEntries k v ((old, w) ∷ m) p h = elim (Bool-cases (old == k)) [
    | inl same ↦ rw same (p, h.1)
    | inr other ↦ rw other (h.0, insert-AllEntries k v m p h.1)
  ]

  -- What the entry function gives has the property.
  abbrev Gives : (Option (String × String) → Option (String × String)) → Type 0
  Gives entry = (o : Option (String × String)) (k v : String) → entry o ≡ some (k, v) → P k v

  parse_pairs-AllEntries :
      (env_key : String) (entry : Option (String × String) → Option (String × String))
      (pairs : List String) (m m' : GoMap String String)
      → Gives entry
      → AllEntries m
      → parse_pairs env_key entry pairs m ≡ ok m'
      → AllEntries m'
  unfolding parse_pairs
  parse_pairs-AllEntries env_key entry [] m m' gives h e = subst AllEntries (cc) h
  parse_pairs-AllEntries env_key entry (p ∷ pairs) m m' gives h e =
      let pair = trim_space p in
      elim (Bool-cases (pair == "")) [
        | inl empty ↦ parse_pairs-AllEntries env_key entry pairs m m' gives h (ground arith)
        | inr full ↦ elim (Option-cases (entry (split_two b'=' pair))) [
          | inl invalid ↦ absurd (ground arith)
          | inr ((k, v), found) ↦
              parse_pairs-AllEntries env_key entry pairs (insert k v m) m' gives
                (insert-AllEntries k v m (gives (split_two b'=' pair) k v found) h) (ground arith)
        ]
      ]

abbrev pub HasKey : String → String → Type 0
HasKey k v = k ≢ ""

abbrev pub HasBoth : String → String → Type 0
HasBoth k v = (k ≢ "") × (v ≢ "")

header_of-Gives : Gives HasKey header_of
header_of-Gives none k v e = cc
header_of-Gives (some (key, val)) k v e = ground (arith, eq_iff (trim_space key) "")

attribute_of-Gives : Gives HasBoth attribute_of
attribute_of-Gives none k v e = cc
attribute_of-Gives (some (key, val)) k v e =
    ground (arith, eq_iff (trim_space key) "", eq_iff (trim_space val) "")

pub nil_entries : (P : String → String → Type 0) (m : GoMap String String) → m ≡ [] → AllEntries P m
nil_entries P [] h = tt
nil_entries P (e ∷ m) h = cc

module _ (os : Os) where
  pub headers_env-AllEntries :
      (key : String) (m : GoMap String String) → headers_env os key ≡ ok m → AllEntries HasKey m
  unfolding headers_env parse_otel_headers
  headers_env-AllEntries key m h = elim (Bool-cases (trimmed_env os key == "")) [
    | inl unset ↦ nil_entries HasKey m (ground arith)
    | inr given ↦
        parse_pairs-AllEntries HasKey key header_of (split b',' (trimmed_env os key)) [] m
          header_of-Gives tt (ground arith)
  ]

  pub attributes_env-AllEntries :
      (m : GoMap String String) → attributes_env os ≡ ok m → AllEntries HasBoth m
  unfolding attributes_env parse_attributes
  attributes_env-AllEntries m h =
      let attrs = trimmed_env os "OTEL_RESOURCE_ATTRIBUTES" in
      elim (Bool-cases (attrs == "")) [
        | inl unset ↦ nil_entries HasBoth m (ground arith)
        | inr given ↦
            parse_pairs-AllEntries HasBoth "OTEL_RESOURCE_ATTRIBUTES" attribute_of
              (split b',' attrs) [] m attribute_of-Gives tt (ground arith)
      ]
