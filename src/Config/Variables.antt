-- ===== src/Config/Variables.antt =====
-- internal/config/config.go: a variable of the environment, or the file that `<variable>_FILE` names.
pub mod Laws
use Prim.Native.String.{◌++◌ as ◌<>◌}
use gitlab_elt.Common.{ℕ, String, Option, none, some, ◌==◌, string_eq, if◌then◌else◌}
use gitlab_elt.Text.{trim_space}
use gitlab_elt.Text.Integers.{atoi}
use gitlab_elt.Config.Types.{Error, unreadable, is_required, no_integer, Result, ok, err, ◌>>=◌}

-- The operating system: `os.Getenv`, which gives "" for a variable that is not set, after the library
-- godotenv has read the file `.env`; and `os.ReadFile`, with `none` for an error.
pub record Os : Type 0 where
  pub getenv : String → String
  pub read_file : String → Option String

-- `strconv.Atoi` with its error.
abbrev pub integer : String → Option ℕ → Result ℕ
integer s none = err (no_integer s)
integer s (some n) = ok n

abbrev pub content_of : String → String → Option String → Result String
content_of file_key file_path none = err (unreadable file_key file_path)
content_of file_key file_path (some content) = ok (trim_space content)

module _ (os : Os) where
  unfoldable pub resolve_env_value : String → Result String
  resolve_env_value key =
      let val = os.getenv key in
      let file_key = key <> "_FILE" in
      let file_path = trim_space (os.getenv file_key) in
      if val == ""
      then (if file_path == ""
          then ok ""
          else content_of file_key file_path (os.read_file file_path))
      else ok val

  abbrev pub value_or_empty : Result String → String
  value_or_empty (ok val) = val
  value_or_empty (err e) = ""

  unfoldable pub require_env : String → String
  require_env key = value_or_empty (resolve_env_value key)

  unfoldable pub require_env_strict : String → Result String
  require_env_strict key = do
    val ← resolve_env_value key
    if val == "" then err (is_required key) else ok val

  unfoldable pub require_env_int : String → Result ℕ
  require_env_int key = do
    val ← resolve_env_value key
    if val == "" then err (is_required key) else integer val (atoi val)

  -- An error of the file gives the default too.
  abbrev pub or_default : String → Result String → String
  or_default default_val (err e) = default_val
  or_default default_val (ok val) = if val == "" then default_val else val

  unfoldable pub env_or_default : String → String → String
  env_or_default key default_val = or_default default_val (resolve_env_value key)

  unfoldable pub env_or_default_int : String → ℕ → Result ℕ
  env_or_default_int key default_val = do
    val ← resolve_env_value key
    if val == "" then ok default_val else integer val (atoi val)
