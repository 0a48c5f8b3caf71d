-- ===== src/Session.antt =====
-- pkg/session/session.go: `Session` and `Manager`. A connection is a state `C` of the driver,
-- which `Exec` and `Close` change; a variable's value is of any type `V`. Locks are left out:
-- every method holds one from its start to its end.
pub mod Transactions
pub mod Manager
pub mod Stuck
pub mod Closing
mod Tests
use my_proxy.Base.{
  ℕ, Bool, true, false, not, List, [], ◌∷◌, Option, none, some, Bytes, codes, length, if◌then◌else◌,
}
use my_proxy.Base.Dict.{Dict, lookup, insert, delete}
use my_proxy.Base.Eq.{nat_eq, bytes_eq}

-- The statements that a session sends by itself.
pub data Command : Type 0 where
  begin_tx commit_tx rollback_tx : Command

pub data SessionError : Type 0 where
  no_connection begin_failed commit_failed rollback_failed close_failed : SessionError

pub record PreparedStatement : Type 0 where
  pub id : ℕ
  pub sql : Bytes
  pub original_sql : Bytes
  pub pg_name : Bytes
  pub param_count : ℕ
  pub param_types : List ℕ
  pub column_count : ℕ
  pub column_types : List ℕ
  pub column_names : List Bytes

pub record Session (C V : Type 0) : Type 0 where
  pub id : Bytes
  pub user : Bytes
  pub database : Bytes
  pub charset : Bytes
  pub autocommit : Bool
  pub in_transaction : Bool
  pub last_insert_id : ℕ
  pub created_at : ℕ
  pub last_active_at : ℕ
  pub client_addr : Bytes
  pub session_vars : Dict Bytes V
  pub user_vars : Dict Bytes V
  pub prepared_stmts : Dict ℕ PreparedStatement
  pub auto_increment_tables : Dict Bytes Bytes
  pub pg_conn : Option C

-- `id` is the identifier that the library makes; the two times are those of the two calls.
abbrev pub new_session : {C V : Type 0} → Bytes → ℕ → ℕ → Bytes → Bytes → Bytes → Session C V
new_session id created now user database client_addr = record {
  id = id;
  user = user;
  database = database;
  charset = codes "utf8mb4";
  autocommit = true;
  in_transaction = false;
  last_insert_id = 0;
  created_at = created;
  last_active_at = now;
  client_addr = client_addr;
  session_vars = [];
  user_vars = [];
  prepared_stmts = [];
  auto_increment_tables = [];
  pg_conn = none;
}

module _ {C V : Type 0} where
  abbrev pub set_pg_conn : Option C → Session C V → Session C V
  set_pg_conn conn s = record s { pg_conn = conn }

  abbrev pub set_session_var : Bytes → V → Session C V → Session C V
  set_session_var key value s = record s { session_vars = insert key value s.session_vars }

  abbrev pub get_session_var : Bytes → Session C V → Option V
  get_session_var key s = lookup key s.session_vars

  abbrev pub set_user_var : Bytes → V → Session C V → Session C V
  set_user_var key value s = record s { user_vars = insert key value s.user_vars }

  abbrev pub get_user_var : Bytes → Session C V → Option V
  get_user_var key s = lookup key s.user_vars

  abbrev pub add_prepared_statement : PreparedStatement → Session C V → Session C V
  add_prepared_statement stmt s = record s { prepared_stmts = insert stmt.id stmt s.prepared_stmts }

  abbrev pub get_prepared_statement : ℕ → Session C V → Option PreparedStatement
  get_prepared_statement id s = lookup id s.prepared_stmts

  abbrev pub remove_prepared_statement : ℕ → Session C V → Session C V
  remove_prepared_statement id s = record s { prepared_stmts = delete id s.prepared_stmts }

  abbrev pub get_prepared_statement_count : Session C V → ℕ
  get_prepared_statement_count s = length s.prepared_stmts

  abbrev pub update_last_active : ℕ → Session C V → Session C V
  update_last_active now s = record s { last_active_at = now }

  abbrev pub set_last_insert_id : ℕ → Session C V → Session C V
  set_last_insert_id id s = record s { last_insert_id = id }

  abbrev pub mark_table_has_auto_increment : Bytes → Bytes → Session C V → Session C V
  mark_table_has_auto_increment table column s = record s {
    auto_increment_tables = insert table column s.auto_increment_tables;
  }

-- `exec` gives the connection as `Exec` leaves it, and whether it returns an error.
module _ {C V : Type 0} (exec : Command → C → C × Bool) where
  -- One `Exec` with its error, or with the flag that is set behind it.
  abbrev pub send :
      Command → SessionError → Bool → C → Session C V → Session C V × Option SessionError
  send command failed flag conn s =
      let (after, fails) = exec command conn in
      if fails
      then (record s { pg_conn = some after }, some failed)
      else (record s { pg_conn = some after; in_transaction = flag }, none)

  -- What a method does behind its first test: the error of a missing connection, or a command.
  abbrev pub send_or_refuse :
      Command → SessionError → Bool → Option C → Session C V → Session C V × Option SessionError
  send_or_refuse command failed flag none s = (s, some no_connection)
  send_or_refuse command failed flag (some conn) s = send command failed flag conn s

  unfoldable pub begin_transaction : Session C V → Session C V × Option SessionError
  begin_transaction s =
      if s.in_transaction then (s, none) else send_or_refuse begin_tx begin_failed true s.pg_conn s

  unfoldable pub commit_transaction : Session C V → Session C V × Option SessionError
  commit_transaction s =
      if s.in_transaction
      then send_or_refuse commit_tx commit_failed false s.pg_conn s
      else (s, none)

  unfoldable pub rollback_transaction : Session C V → Session C V × Option SessionError
  rollback_transaction s =
      if s.in_transaction
      then send_or_refuse rollback_tx rollback_failed false s.pg_conn s
      else (s, none)

  -- `SetAutocommit` behind the write of the flag.
  abbrev pub switch_mode : Bool → Option C → Session C V → Session C V × Option SessionError
  switch_mode autocommit none s = (s, none)
  switch_mode true (some conn) s =
      if s.in_transaction then send commit_tx commit_failed false conn s else (s, none)
  switch_mode false (some conn) s =
      if s.in_transaction then (s, none) else send begin_tx begin_failed true conn s

  unfoldable pub set_autocommit : Bool → Session C V → Session C V × Option SessionError
  set_autocommit autocommit s =
      if (if autocommit then s.autocommit else not s.autocommit)
      then (s, none)
      else switch_mode autocommit s.pg_conn (record s { autocommit = autocommit })

  -- `Close`, with the connection as it was when it was closed; `closing` says whether its `Close`
  -- returns an error. The error of the rollback is dropped.
  abbrev pub close_conn :
      (C → Bool) → Option C → Session C V → Session C V × (Option C × Option SessionError)
  close_conn closing none s = (s, (none, none))
  close_conn closing (some conn) s =
      let last = if s.in_transaction then (exec rollback_tx conn).0 else conn in
      (record s { pg_conn = none }, (some last, if closing last then some close_failed else none))

  unfoldable pub close_session :
      (C → Bool) → Session C V → Session C V × (Option C × Option SessionError)
  close_session closing s = close_conn closing s.pg_conn s
