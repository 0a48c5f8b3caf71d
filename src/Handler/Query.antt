-- ===== src/Handler/Query.antt =====
-- pkg/protocol/mysql/handler.go: `HandleQuery`, from the request's entry in the tracker to its end.
-- The features that are not supported are only logged, and the test for them is left out.
pub mod Inserts
pub mod Transactions
use my_proxy.Base.{
  ℕ, ◌%◌, ◌^◌, Bool, true, false, not, ◌&&◌, ◌||◌, List, [], ◌∷◌, ◌++◌, Option, none, some, Bytes,
  codes, if◌then◌else◌,
}
use my_proxy.Base.Text.{has_prefix, to_upper}
use my_proxy.Base.Search.{contains, to_lower}
use my_proxy.Session.{Session, mark_table_has_auto_increment}
use my_proxy.Schema.{Cache, get_auto_increment_column, invalidate_table}
use my_proxy.Schema.Tables.{Connection}
use my_proxy.Tracker.{start_request, end_request}
use my_proxy.Postgres.{Sent, sent, refused, Rows, Arg, Postgres}
use my_proxy.Admin.{is_replication_command}
use my_proxy.Rewrite.Accounts.{is_acl_command}
use my_proxy.Rewrite.Statements.{
  rewrite, is_show_statement, is_set_statement, is_use_statement, is_begin_statement,
  is_commit_statement, is_rollback_statement,
}
use my_proxy.Handler.State.{
  State, Failure, mysql_failed, er_not_supported_yet, Reply, done, failed, panics, Library, Env,
  exec_conn, query_conn, reply_to, build_mysql_result, and_then,
}
use my_proxy.Handler.Connection.{ensure_pg_conn}
use my_proxy.Handler.Names.{
  extract_insert_table_name, extract_create_table_name, extract_alter_table_name,
  extract_drop_table_name, extract_auto_increment_column, is_kill_statement, is_flush_statement,
  is_tablespace_statement, is_database_statement, upper_query,
}
use my_proxy.Handler.Variables.{handle_set_command, handle_select_variable}
use my_proxy.Handler.Control.{
  handle_show_command, handle_use_command, handle_database_command, run_begin, run_commit,
  run_rollback, handle_kill_command, run_replication, run_acl,
}

abbrev pub is_empty : Bytes → Bool
is_empty [] = true
is_empty (c ∷ s) = false

abbrev pub has_any : List Bytes → Bytes → Bool
has_any [] s = false
has_any (p ∷ ps) s = has_prefix s p || has_any ps s

unfoldable pub is_ddl : Bytes → Bool
is_ddl upper =
    has_any
      (codes "CREATE"
        ∷ codes "DROP"
        ∷ codes "ALTER"
        ∷ codes "TRUNCATE"
        ∷ codes "DELETE"
        ∷ codes "UPDATE"
        ∷ codes "INSERT"
        ∷ [])
      upper

-- The text of a statement for the tablespace's error.
abbrev tablespace_message : Bytes
tablespace_message =
    codes "ALTER TABLE ... DISCARD/IMPORT TABLESPACE is not supported "
    ++ codes "(PostgreSQL does not have per-table tablespace import/export)"

module _ {H C : Type 0} where
  abbrev invalidate : Bytes → State H C → State H C
  invalidate table s = record s { cache = invalidate_table s.session.database table s.cache }

  abbrev invalidate_named : Bytes → State H C → State H C
  invalidate_named table s = if is_empty table then s else invalidate table s

  abbrev mark : Bytes → Bytes → State H C → State H C
  mark table column s =
      if not (is_empty table) && not (is_empty column)
      then record s { session = mark_table_has_auto_increment table column s.session }
      else s

  -- What a statement that succeeded, and is no INSERT, does to the cache.
  unfoldable pub refresh_cache : Bytes → State H C → State H C
  refresh_cache query s =
      let upper = upper_query query in
      if has_prefix upper (codes "CREATE TABLE")
      then mark (extract_create_table_name query) (extract_auto_increment_column query)
          (invalidate (extract_create_table_name query) s)
      else if has_prefix upper (codes "ALTER TABLE")
      then invalidate_named (extract_alter_table_name query) s
      else if has_prefix upper (codes "DROP TABLE")
      then invalidate_named (extract_drop_table_name query) s
      else s

-- The number of the first row; 0 where there is none, or where it cannot be read.
abbrev pub returned_id : {R : Type 0} → (R → Option ℕ) → List R → ℕ
returned_id scan [] = 0
returned_id scan (r ∷ rows) = elim (scan r) [ none ↦ 0 | some id ↦ id ]

abbrev pub conn_of : {C : Type 0} → (C → Connection) → Option C → Option Connection
conn_of tables none = none
conn_of tables (some c) = some (tables c)

-- A column whose value is asked for: the table has one, and the statement does not ask already.
abbrev pub wants_returning : Bytes → Bytes → Bool
wants_returning column sql =
    not (is_empty column) && not (contains (to_upper sql) (codes "RETURNING"))

module _ {H C R : Type 0} (pg : Postgres C R) (lib : Library C R) where
  abbrev pub count_reply : State H C × Sent ℕ → State H C × Reply R
  count_reply (s, answer) = (s, reply_to (λ n. done 0 (n % 2 ^ 64)) answer)

  -- One row is reported whatever rows there are, and whatever error ends them.
  abbrev pub returned : State H C × Sent (Rows R) → State H C × Reply R
  returned (s, answer) =
      (s, reply_to (λ (rows : Rows R). done (returned_id pg.scan_id rows.found) 1) answer)

  unfoldable pub insert_with : Bytes → Bytes → List Arg → State H C → State H C × Reply R
  insert_with column sql args s =
      if wants_returning column sql
      then returned (query_conn pg (sql ++ (codes " RETURNING " ++ column)) args s)
      else count_reply (exec_conn pg sql args s)

  abbrev pub with_column :
      Bytes → List Arg → State H C → Option (Cache × Bytes) → State H C × Reply R
  with_column sql args s none = (s, panics)
  with_column sql args s (some (cache, column)) =
      insert_with column sql args (record s { cache = cache })

  abbrev pub with_table : Env H → Bytes → List Arg → State H C → Option Bytes → State H C × Reply R
  with_table env sql args s none = (s, panics)
  with_table env sql args s (some table) = with_column sql args s (
      get_auto_increment_column to_lower env.now env.stored_at
        (conn_of lib.tables s.session.pg_conn) s.session.database table s.cache)

  -- An INSERT, by the text that the client sent and the one that is sent on.
  unfoldable pub run_insert : Env H → Bytes → Bytes → List Arg → State H C → State H C × Reply R
  run_insert env original sql args s =
      with_table env sql args s (extract_insert_table_name original)

  abbrev refreshed : Bytes → State H C × Sent ℕ → State H C × Reply R
  refreshed query (s, refused e) = count_reply (s, refused e)
  refreshed query (s, sent n) = count_reply (refresh_cache query s, sent n)

  abbrev pub rows_reply : Bool → State H C × Sent (Rows R) → State H C × Reply R
  rows_reply binary (s, answer) = (s, reply_to (build_mysql_result binary) answer)

  unfoldable pub run_statement : Env H → Bytes → State H C → State H C × Reply R
  run_statement env query s =
      let sql = rewrite lib.ast lib.enabled query in
      if is_ddl (upper_query query)
      then if has_prefix (upper_query query) (codes "INSERT")
        then run_insert env query sql [] s
        else refreshed query (exec_conn pg sql [] s)
      else rows_reply false (query_conn pg sql [] s)

  -- The tests behind those for the statements that are handled whole.
  unfoldable pub run_plain : Env H → Bytes → State H C → State H C × Reply R
  run_plain env query s =
      if is_flush_statement query
      then (s, done 0 0)
      else if is_tablespace_statement query
      then (s, failed (mysql_failed er_not_supported_yet tablespace_message))
      else run_statement env query s

  -- A reply, or what is left to do.
  abbrev pub or_next :
      State H C × Option (Reply R) → (State H C → State H C × Reply R) → State H C × Reply R
  or_next (s, some reply) next = (s, reply)
  or_next (s, none) next = next s

  abbrev pub acl_or_plain : Env H → Bytes → State H C → State H C × Reply R
  acl_or_plain env query s =
      if is_acl_command query
      then or_next (run_acl pg lib query s) (run_plain env query)
      else run_plain env query s

  unfoldable pub run_other : Env H → Bytes → State H C → State H C × Reply R
  run_other env query s =
      if is_begin_statement query
      then run_begin pg lib s
      else if is_commit_statement query
      then run_commit pg lib s
      else if is_rollback_statement query
      then run_rollback pg lib s
      else if is_kill_statement query
      then handle_kill_command pg lib query s
      else if is_replication_command query
      then or_next (run_replication pg lib query s) (acl_or_plain env query)
      else acl_or_plain env query s

  unfoldable pub dispatch : Env H → Bytes → State H C → State H C × Reply R
  dispatch env query s =
      if is_show_statement query
      then handle_show_command pg lib query s
      else if is_set_statement query
      then handle_set_command pg lib query s
      else if is_use_statement query
      then handle_use_command pg lib query s
      else if is_database_statement query
      then handle_database_command pg lib query s
      else or_next (handle_select_variable pg lib query s) (run_other env query)

  -- The entry of the tracker ends with the call, also where it panics.
  abbrev ended : ℕ → State H C × Reply R → State H C × Reply R
  ended id (s, reply) = (record s { tracker = end_request id s.tracker }, reply)

  unfoldable pub handle_query : (H → C) → Env H → Bytes → State H C → State H C × Reply R
  handle_query dial env query s =
      let (tracker, id) = start_request s.session.id query env.now s.tracker in
      ended id (
        and_then (ensure_pg_conn pg dial env (record s { tracker = tracker })) (dispatch env query))
