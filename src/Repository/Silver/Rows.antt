-- ===== src/Repository/Silver/Rows.antt =====
-- What a query of the Silver tables (internal/repository) gives for no row or a NULL.
use gitlab_elt.Common.{ℕ, Bool, false, Option, none, some, ◌==◌, nat_eq, string_eq}
use gitlab_elt.Repository.Connection.{Result, ok, err, no_rows}

-- `res, err := row.Scan()`: no row is the error `pgx.ErrNoRows`.
abbrev pub one_row : {A : Type 0} → Option A → Result A
one_row none = err no_rows
one_row (some a) = ok a

-- Equality of two nullable numbers in SQL: a NULL equals nothing.
abbrev pub sql_eq : Option ℕ → Option ℕ → Bool
sql_eq (some a) (some b) = a == b
sql_eq _ _ = false
