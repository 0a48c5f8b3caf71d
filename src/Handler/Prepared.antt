-- ===== src/Handler/Prepared.antt =====
-- pkg/protocol/mysql/handler.go: `HandleStmtPrepare`, `HandleStmtExecute` and `HandleStmtClose`.
-- `format` is the layout of a time that the code gives to `Format`.
pub mod Numbers
use my_proxy.Base.{
  ℕ, ◌+◌, ◌%◌, ◌^◌, Bool, true, false, ◌||◌, List, [], ◌∷◌, Option, none, some, Bytes, codes, map,
  if◌then◌else◌,
}
use my_proxy.Base.Text.{has_prefix, to_upper, trim_space}
use my_proxy.Session.{
  Session, PreparedStatement, add_prepared_statement, get_prepared_statement,
  remove_prepared_statement, get_prepared_statement_count,
}
use my_proxy.Postgres.{Arg, time_arg, bytes_arg, text_arg, other_arg, Postgres}
use my_proxy.Rewrite.Statements.{rewrite_prepared}
use my_proxy.Handler.State.{
  State, Failure, mysql_failed, er_unknown, er_unknown_stmt_handler, Reply, failed, Library, Env,
  exec_conn, query_conn, and_then,
}
use my_proxy.Handler.Connection.{ensure_pg_conn}
use my_proxy.Handler.Names.{upper_query}
use my_proxy.Handler.Query.{has_any, run_insert, count_reply, rows_reply}

-- The number of parameters, the one of columns, and the statement's.
pub data Preparation : Type 0 where
  prepared : ℕ → ℕ → ℕ → Preparation
  unprepared : Failure → Preparation

-- What the library keeps for a statement: the number that `HandleStmtPrepare` gave, or a value of
-- another type.
pub data StmtData : Type 0 where
  stmt_id : ℕ → StmtData
  other_data : StmtData

abbrev returns_rows : Bytes → Bool
returns_rows upper =
    has_any
      (codes "SELECT"
        ∷ codes "WITH"
        ∷ codes "SHOW"
        ∷ codes "EXPLAIN"
        ∷ codes "DESCRIBE"
        ∷ codes "DESC"
        ∷ [])
      upper

abbrev is_dml : Bytes → Bool
is_dml upper = has_any (codes "INSERT" ∷ codes "UPDATE" ∷ codes "DELETE" ∷ []) upper

abbrev returned_columns : Bytes → ℕ
returned_columns sql = if returns_rows (trim_space (to_upper sql)) then 1 else 0

abbrev pub new_stmt : ℕ → Bytes → Bytes → ℕ → PreparedStatement
new_stmt id sql query params = record {
  id = id;
  sql = sql;
  original_sql = query;
  pg_name = [];
  param_count = params;
  param_types = [];
  column_count = 0;
  column_types = [];
  column_names = [];
}

abbrev pub convert_arg : (ℕ → Bytes) → Arg → Arg
convert_arg format (time_arg t) = text_arg (format t)
convert_arg format (bytes_arg v) = text_arg v
convert_arg format (text_arg v) = text_arg v
convert_arg format (other_arg v) = other_arg v

-- The number of the next statement.
abbrev pub next_stmt_id : {C : Type 0} → Session C Bytes → ℕ
next_stmt_id s = (get_prepared_statement_count s + 1) % 2 ^ 32

module _ {C R : Type 0} (lib : Library C R) where
  abbrev pub stmt_of : Bytes → Session C Bytes → PreparedStatement
  stmt_of query s =
      let (sql, params) = rewrite_prepared lib.ast lib.enabled query in
      new_stmt (next_stmt_id s) sql query params

  -- What a preparation does on a connection that is there.
  unfoldable pub add_stmt : {H : Type 0} → Bytes → State H C → State H C × Preparation
  add_stmt query s =
      let stmt = stmt_of query s.session in
      (
        record s { session = add_prepared_statement stmt s.session },
        prepared stmt.param_count (returned_columns stmt.sql) stmt.id,
      )

abbrev pub close_stmt_found : {H C : Type 0} → ℕ → Option PreparedStatement → State H C → State H C
close_stmt_found id none s = s
close_stmt_found id (some stmt) s = record s { session = remove_prepared_statement id s.session }

unfoldable pub handle_stmt_close :
    {H C : Type 0} → StmtData → State H C → State H C × Option Failure
handle_stmt_close other_data s =
    (s, some (mysql_failed er_unknown (codes "invalid statement ID type")))
handle_stmt_close (stmt_id id) s =
    (close_stmt_found id (get_prepared_statement id s.session) s, none)

module _ {H C R : Type 0} (pg : Postgres C R) (lib : Library C R) (dial : H → C) where
  abbrev prepare_behind : Bytes → State H C × Option Failure → State H C × Preparation
  prepare_behind query (s, some e) = (s, unprepared e)
  prepare_behind query (s, none) = add_stmt lib query s

  unfoldable pub handle_stmt_prepare : Env H → Bytes → State H C → State H C × Preparation
  handle_stmt_prepare env query s = prepare_behind query (ensure_pg_conn pg dial env s)

  abbrev run_stmt : Env H → PreparedStatement → List Arg → State H C → State H C × Reply R
  run_stmt env stmt args s =
      if is_dml (upper_query stmt.original_sql)
      then if has_prefix (upper_query stmt.original_sql) (codes "INSERT")
        then run_insert pg lib env stmt.original_sql stmt.sql args s
        else count_reply pg lib (exec_conn pg stmt.sql args s)
      else rows_reply pg lib true (query_conn pg stmt.sql args s)

  abbrev pub execute_found :
      (ℕ → Bytes) → Env H → List Arg → Option PreparedStatement → State H C → State H C × Reply R
  execute_found format env args none s =
      (s, failed (mysql_failed er_unknown_stmt_handler (codes "Unknown prepared statement")))
  execute_found format env args (some stmt) s =
      and_then (ensure_pg_conn pg dial env s) (run_stmt env stmt (map (convert_arg format) args))

  unfoldable pub handle_stmt_execute :
      (ℕ → Bytes) → Env H → StmtData → List Arg → State H C → State H C × Reply R
  handle_stmt_execute format env other_data args s =
      (s, failed (mysql_failed er_unknown (codes "invalid statement ID type")))
  handle_stmt_execute format env (stmt_id id) args s =
      execute_found format env args (get_prepared_statement id s.session) s
