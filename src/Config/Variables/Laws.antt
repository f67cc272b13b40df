-- ===== src/Config/Variables/Laws.antt =====
-- Where a variable's value comes from (internal/config/config.go).
use Prim.Native.String.{◌++◌ as ◌<>◌}
use gitlab_elt.Common.{
  ℕ, String, ap, ◌∙◌, if◌then◌else◌, Option, none, some, ◌≡◌, ◌≢◌, ◌⊎◌, inl, inr, refl, arith, ◌==◌,
  string_eq, eq_iff, Bool-cases, Option-cases,
}
use gitlab_elt.Text.{trim_space}
use gitlab_elt.Text.Integers.{atoi}
use gitlab_elt.Config.Types.{Error, ok, err, Result-cases, >>=-ok}
use gitlab_elt.Config.Variables.{
  Os, integer, resolve_env_value, require_env_strict, require_env_int, env_or_default,
  env_or_default_int,
}

module _ (os : Os) where
  -- What the operating system has for a key: a value that is set, which comes first; the trimmed
  -- content of a file; or nothing.
  pub data Provides (key : String) : String → Type 0 where
    from_variable : (val : String) → os.getenv key ≡ val → val ≢ "" → Provides key val
    from_file :
        (val path content : String)
        → os.getenv key ≡ ""
        → trim_space (os.getenv (key <> "_FILE")) ≡ path
        → path ≢ ""
        → os.read_file path ≡ some content
        → trim_space content ≡ val
        → Provides key val
    from_nothing :
        (val : String)
        → os.getenv key ≡ ""
        → trim_space (os.getenv (key <> "_FILE")) ≡ ""
        → val ≡ ""
        → Provides key val

  -- The file of a variable that is not set cannot be read.
  abbrev pub IsUnreadable : String → Type 0
  IsUnreadable key =
      (os.getenv key ≡ "")
      × (trim_space (os.getenv (key <> "_FILE")) ≢ "")
      × (os.read_file (trim_space (os.getenv (key <> "_FILE"))) ≡ none)

  pub resolve_env_value-Provides :
      (key v : String) → resolve_env_value os key ≡ ok v → Provides key v
  unfolding resolve_env_value
  resolve_env_value-Provides key v h =
      let path = trim_space (os.getenv (key <> "_FILE")) in
      elim (Bool-cases (os.getenv key == "")) [
        | inr given ↦ from_variable v (ground arith) (ground (arith, eq_iff (os.getenv key) ""))
        | inl unset ↦
            let none_set : os.getenv key ≡ "" = (eq_iff _ _).0 unset in
            elim (Bool-cases (path == "")) [
              | inl no_file ↦ from_nothing v none_set ((eq_iff _ _).0 no_file) (ground arith)
              | inr file ↦ elim (Option-cases (os.read_file path)) [
                | inl broken ↦ absurd (ground arith)
                | inr (content, found) ↦
                    from_file v path content none_set refl (ground (arith, eq_iff path "")) found
                      (ground arith)
              ]
            ]
      ]

  -- A required variable has a value that is not empty.
  abbrev pub Requires : String → String → Type 0
  Requires key v = Provides key v × (v ≢ "")

  pub require_env_strict-Requires :
      (key v : String) → require_env_strict os key ≡ ok v → Requires key v
  unfolding require_env_strict
  require_env_strict-Requires key v h =
      let (val, resolved, rest) = >>=-ok (resolve_env_value os key) _ h in
      let same : val ≡ v = ground (arith, eq_iff val "") in
      (resolve_env_value-Provides key v (resolved ∙ ap ok same), ground (arith, eq_iff val ""))

  -- A number is what `strconv.Atoi` reads of the value.
  abbrev pub RequiresInt : String → ℕ → Type 0
  RequiresInt key n = (v : String) × Requires key v × (atoi v ≡ some n)

  integer-ok : (v : String) (o : Option ℕ) (n : ℕ) → integer v o ≡ ok n → o ≡ some n
  integer-ok v none n h = cc
  integer-ok v (some m) n h = cc

  pub require_env_int-RequiresInt :
      (key : String) (n : ℕ) → require_env_int os key ≡ ok n → RequiresInt key n
  unfolding require_env_int
  require_env_int-RequiresInt key n h =
      let (val, resolved, rest) = >>=-ok (resolve_env_value os key) _ h in
      (
        val,
        (resolve_env_value-Provides key val resolved, ground (arith, eq_iff val "")),
        integer-ok val (atoi val) n (ground arith),
      )

  -- An optional number: the default where there is no value.
  abbrev pub OptionalInt : String → ℕ → ℕ → Type 0
  OptionalInt key default_val n = (Provides key "" × (n ≡ default_val)) ⊎ RequiresInt key n

  pub optional_int :
      (key : String) (default_val n : ℕ) (val : String)
      → resolve_env_value os key ≡ ok val
      → (if val == "" then ok default_val else integer val (atoi val)) ≡ ok n
      → OptionalInt key default_val n
  optional_int key default_val n val resolved rest = elim (Bool-cases (val == "")) [
    | inl empty ↦
        inl (
          resolve_env_value-Provides key "" (resolved ∙ ap ok ((eq_iff _ _).0 empty)),
          ground arith,
        )
    | inr given ↦ inr (
      val,
      (resolve_env_value-Provides key val resolved, ground (arith, eq_iff val "")),
      integer-ok val (atoi val) n (ground arith),
    )
  ]

  pub env_or_default_int-OptionalInt :
      (key : String) (default_val n : ℕ)
      → env_or_default_int os key default_val ≡ ok n
      → OptionalInt key default_val n
  unfolding env_or_default_int
  env_or_default_int-OptionalInt key default_val n h =
      let (val, resolved, rest) = >>=-ok (resolve_env_value os key) _ h in
      optional_int key default_val n val resolved rest

  resolve_env_value-IsUnreadable :
      (key : String) {e : Error} → resolve_env_value os key ≡ err e → IsUnreadable key
  unfolding resolve_env_value
  resolve_env_value-IsUnreadable key h =
      let path = trim_space (os.getenv (key <> "_FILE")) in
      elim (Option-cases (os.read_file path)) [
        | inl broken ↦
            (ground (arith, eq_iff (os.getenv key) ""), ground (arith, eq_iff path ""), broken)
        | inr (content, found) ↦ absurd (ground arith)
      ]

  -- An optional text: the default where there is no value, and also where its file is unreadable.
  abbrev pub OptionalText : String → String → String → Type 0
  OptionalText key default_val v =
      (IsUnreadable key × (v ≡ default_val))
      ⊎ (Provides key "" × (v ≡ default_val))
      ⊎ Requires key v

  pub env_or_default-OptionalText :
      (key default_val : String) → OptionalText key default_val (env_or_default os key default_val)
  unfolding env_or_default
  env_or_default-OptionalText key default_val = elim (Result-cases (resolve_env_value os key)) [
    | inr (e, failed) ↦ inl (resolve_env_value-IsUnreadable key failed, ground arith)
    | inl (val, resolved) ↦ elim (Bool-cases (val == "")) [
      | inl empty ↦ inr (
          inl (
            resolve_env_value-Provides key "" (resolved ∙ ap ok ((eq_iff _ _).0 empty)),
            ground arith,
          ))
      | inr given ↦
          let same : val ≡ env_or_default os key default_val = ground arith in
          inr (
            inr (
              resolve_env_value-Provides key _ (resolved ∙ ap ok same),
              ground (arith, eq_iff val ""),
            ))
    ]
  ]
