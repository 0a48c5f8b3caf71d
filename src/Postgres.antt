-- ===== src/Postgres.antt =====
-- What the code calls of the library pgx, as an interface: a connection is a state `C` that every
-- call changes, and the connection's server answers by it. A row is of any type `R`.
use my_proxy.Base.{ℕ, List, Option, Bytes}

-- `*pgconn.PgError` with its code and its message, or any other error with its text.
pub data PgError : Type 0 where
  server_error : Bytes → Bytes → PgError
  other_error : Bytes → PgError

pub data Sent (X : Type 0) : Type 0 where
  refused : PgError → Sent X
  sent : X → Sent X

-- The rows that `Next` gives, and what `Err` says when it gives no more.
pub record Rows (R : Type 0) : Type 0 where
  pub found : List R
  pub err : Option PgError

-- An argument of a statement, by its Go type.
pub data Arg : Type 0 where
  time_arg : ℕ → Arg
  bytes_arg text_arg : Bytes → Arg
  other_arg : ℕ → Arg

-- `Exec` with the count of `RowsAffected`, `Query`, `QueryRow` with a `Scan` into a text or into
-- a truth value, and the `Scan` of a row into an int64, as a uint64.
pub record Postgres (C R : Type 0) : Type 0 where
  pub exec : Bytes → List Arg → C → C × Sent ℕ
  pub query : Bytes → List Arg → C → C × Sent (Rows R)
  pub query_text : Bytes → C → C × Sent Bytes
  pub scan_id : R → Option ℕ
