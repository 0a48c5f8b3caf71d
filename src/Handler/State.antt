-- ===== src/Handler/State.antt =====
-- pkg/protocol/mysql/handler.go: what a handler reads and writes, and the ways it reaches
-- PostgreSQL. A connection is a handle `H` of the driver, and `dial` is the state of the connection
-- that the driver hands out; the handler and its session share one pointer to it, so that its
-- state stands in the session alone. The metrics and the log are left out.
use my_proxy.Base.{ℕ, Bool, true, false, List, [], Option, none, some, Bytes, codes}
use my_proxy.Session.{Command, begin_tx, commit_tx, rollback_tx, SessionError, Session}
use my_proxy.Session.Manager.{Manager}
use my_proxy.Schema.{Cache}
use my_proxy.Schema.Tables.{Connection}
use my_proxy.Pool.{PoolError, Pool, Driver}
use my_proxy.Tracker.{Tracker}
use my_proxy.Postgres.{PgError, other_error, Sent, refused, sent, Rows, Arg, Postgres}
use my_proxy.Mapper.Errors.{map_error}
use my_proxy.Mapper.Variables.Access.{Overrides, VarError}
use my_proxy.Admin.{AdminError}
use my_proxy.Rewrite.Accounts.{AclStmt}

-- `pool` to `tracker` are shared by all connections, the other three fields are the handler's own.
pub record State (H C : Type 0) : Type 0 where
  pub pool : Pool H
  pub manager : Manager C Bytes
  pub cache : Cache
  pub overrides : Overrides
  pub tracker : Tracker
  pub session : Session C Bytes
  pub pg_conn : Option H
  pub search_path_set : Bool

-- The code of an error: one that `MapError` gives, or a constant of the library, by its name there.
pub data ErrorCode : Type 0 where
  mapped : ℕ → ErrorCode
  er_unknown er_syntax er_not_supported_yet er_unknown_stmt_handler er_unknown_com : ErrorCode
  er_master_fatal_error_reading_binlog er_malformed_packet : ErrorCode

pub data Failure : Type 0 where
  pool_failed : PoolError → Failure
  path_failed : Bytes → PgError → Failure
  pg_failed : PgError → Failure
  mysql_failed : ErrorCode → Bytes → Failure
  session_failed : SessionError → Failure
  admin_failed : AdminError → Failure
  var_failed : VarError → Failure
  invalid_use invalid_set : Bytes → Failure

-- `done` has the last inserted number and the count of rows, `row_set` whether the rows go out in
-- the binary protocol, and `value_of` the name of its one column.
pub data Reply (R : Type 0) : Type 0 where
  done : ℕ → ℕ → Reply R
  row_set : Bool → List R → Reply R
  value_of : Bytes → Bytes → Reply R
  failed : Failure → Reply R
  panics : Reply R

pub record SetVarInfo : Type 0 where
  pub name : Bytes
  pub value : Bytes
  pub is_global : Bool
  pub is_system : Bool

pub record SelectVarInfo : Type 0 where
  pub var_name : Bytes
  pub of_global : Bool

pub record KillInfo : Type 0 where
  pub connection_id : ℕ
  pub query_only : Bool

-- What the handler uses of the library's parser of statements and of the code that walks its trees,
-- the rows of the statements SHOW of pkg/mapper/show_admin.go, and what the schema's queries answer
-- on a connection.
pub record Library (C R : Type 0) : Type 0 where
  pub ast : Option (Bytes → Option Bytes)
  pub enabled : Bool
  pub parse_acl : Bytes → Option (List AclStmt)
  pub privilege_names : ℕ → Option Bytes
  pub parse_set : Bytes → List SetVarInfo
  pub parse_select_variable : Bytes → Option SelectVarInfo
  pub parse_kill : Bytes → Option KillInfo
  pub show_admin : Bytes → C → C × Sent (Rows R)
  pub tables : C → Connection

-- What one call meets: the answers of the pool's driver, and the times at which it reads the clock.
pub record Env (H : Type 0) : Type 0 where
  pub driver : Driver H
  pub now : ℕ
  pub stored_at : ℕ

abbrev pub command_text : Command → Bytes
command_text begin_tx = codes "BEGIN"
command_text commit_tx = codes "COMMIT"
command_text rollback_tx = codes "ROLLBACK"

abbrev is_refused : {X : Type 0} → Sent X → Bool
is_refused (refused e) = true
is_refused (sent x) = false

-- The commands of a session, by the same driver.
abbrev pub session_exec : {C R : Type 0} → Postgres C R → Command → C → C × Bool
session_exec pg command c =
    let answer = pg.exec (command_text command) [] c in (answer.0, is_refused answer.1)

-- The answer on a connection that is closed.
abbrev pub closed_conn : {X : Type 0} → Sent X
closed_conn = refused (other_error (codes "conn closed"))

module _ {H C : Type 0} where
  abbrev pub on_session_conn : {X : Type 0} → (C → C × X) → X → State H C → Option C → State H C × X
  on_session_conn call without s none = (s, without)
  on_session_conn call without s (some c) =
      let called = call c in
      (record s { session = record s.session { pg_conn = some called.0 } }, called.1)

  -- A call on the connection; `without` stands for its result on a closed one, which is there only
  -- behind `Close`.
  abbrev pub on_conn : {X : Type 0} → (C → C × X) → X → State H C → State H C × X
  on_conn call without s = on_session_conn call without s s.session.pg_conn

  abbrev pub and_then :
      {R : Type 0}
      → State H C × Option Failure
      → (State H C → State H C × Reply R)
      → State H C × Reply R
  and_then (s, some e) next = (s, failed e)
  and_then (s, none) next = next s

  module _ {R : Type 0} (pg : Postgres C R) where
    abbrev pub exec_conn : Bytes → List Arg → State H C → State H C × Sent ℕ
    exec_conn sql args s = on_conn (pg.exec sql args) closed_conn s

    abbrev pub query_conn : Bytes → List Arg → State H C → State H C × Sent (Rows R)
    query_conn sql args s = on_conn (pg.query sql args) closed_conn s

-- `mysql.NewError(errorMapper.MapError(err))`.
abbrev pub mapped_error : PgError → Failure
mapped_error e = let (code, message) = map_error (some e) in mysql_failed (mapped code) message

-- The replies to a statement with no rows, by the reply to a success.
abbrev pub reply_to : {X R : Type 0} → (X → Reply R) → Sent X → Reply R
reply_to succeeds (refused e) = failed (mapped_error e)
reply_to succeeds (sent x) = succeeds x

abbrev rows_or_error : {R : Type 0} → Bool → List R → Option PgError → Reply R
rows_or_error binary found none = row_set binary found
rows_or_error binary found (some e) = failed (pg_failed e)

-- `buildMySQLResult`, without the conversion of the values and types.
abbrev pub build_mysql_result : {R : Type 0} → Bool → Rows R → Reply R
build_mysql_result binary rows = rows_or_error binary rows.found rows.err
