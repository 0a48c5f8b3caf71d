-- ===== src/Handler/Query/Inserts.antt =====
-- What a client is told of an INSERT.
use my_proxy.Base.{
  ℕ, ◌≡◌, refl, sym, ap, ◌∙◌, true, List, [], ◌∷◌, ◌++◌, Option, none, some, Bytes, codes, All,
  length, ltb, arith,
}
use my_proxy.Base.Dict.{lookup}
use my_proxy.Base.Eq.{equal, bytes_eq}
use my_proxy.Base.Text.{has_prefix, to_upper, trim_space}
use my_proxy.Base.Search.{index, contains, to_lower}
use my_proxy.Schema.{
  Cache, build_table_cache_key, is_fresh, get_auto_increment_column, column_behind,
}
use my_proxy.Schema.Tables.{TableInfo, Connection}
use my_proxy.Tracker.{start_request}
use my_proxy.Postgres.{sent, Rows, Arg, Postgres}
use my_proxy.Admin.{is_replication_command}
use my_proxy.Rewrite.Accounts.{is_acl_command}
use my_proxy.Rewrite.Statements.{
  rewrite, is_show_statement, is_set_statement, is_use_statement, is_begin_statement,
  is_commit_statement, is_rollback_statement,
}
use my_proxy.Handler.State.{
  State, Failure, Reply, done, panics, Library, Env, on_session_conn, closed_conn, reply_to,
  and_then,
}
use my_proxy.Handler.Connection.{ensure_pg_conn}
use my_proxy.Handler.Names.{
  name_behind_insert, extract_insert_table_name, is_kill_statement, is_flush_statement,
  is_tablespace_statement, is_database_statement, upper_query,
}
use my_proxy.Handler.Names.Plain.{IsPlain, length-to_upper, extract_insert_table_name-plain}
use my_proxy.Handler.Variables.{handle_select_variable, select_variable}
use my_proxy.Handler.Query.{
  is_ddl, returned_id, conn_of, wants_returning, returned, insert_with, with_column, with_table,
  run_insert, run_statement, run_plain, or_next, run_other, dispatch, handle_query,
}

get_auto_increment_column-fresh :
    (now stored : ℕ) (conn : Option Connection) (schema table : Bytes) (c : Cache)
    (info : TableInfo)
    → lookup (build_table_cache_key schema table) c.tables ≡ some (some info)
    → is_fresh now info ≡ true
    → get_auto_increment_column to_lower now stored conn schema table c
      ≡ some (c, info.auto_incr_column)
unfolding get_auto_increment_column
get_auto_increment_column-fresh now stored conn schema table c info found fresh =
    ap (λ o. column_behind to_lower o now stored conn schema table c) found ∙ rw fresh refl

extract_insert_table_name-bare :
    (query : Bytes) → to_upper query ≡ codes "INSERT INTO" → extract_insert_table_name query ≡ none
unfolding extract_insert_table_name index has_prefix
extract_insert_table_name-bare query u =
    let size : length query ≡ 11 = sym (length-to_upper query) ∙ ap length u in
    let short : ltb (length query) 12 ≡ true = ground arith in
    ap (λ t. name_behind_insert query (index t (codes "INSERT INTO"))) u ∙ rw short refl

module _ {H C R : Type 0} (pg : Postgres C R) (lib : Library C R) where
  insert_with-returning :
      (column sql : Bytes) (args : List Arg) (s : State H C) (conn : C) (rows : Rows R)
      → wants_returning column sql ≡ true
      → s.session.pg_conn ≡ some conn
      → (pg.query (sql ++ (codes " RETURNING " ++ column)) args conn).1 ≡ sent rows
      → (insert_with pg lib column sql args s).1 ≡ done (returned_id pg.scan_id rows.found) 1
  unfolding insert_with
  insert_with-returning column sql args s conn rows wants own answered =
      let text = sql ++ (codes " RETURNING " ++ column) in
      rw wants (
        ap (λ o. (returned pg lib (on_session_conn (pg.query text args) closed_conn s o)).1) own
        ∙ ap (reply_to (λ (r : Rows R). done (returned_id pg.scan_id r.found) 1)) answered)

  -- An INSERT INTO of a plain name and a space, into a table whose cache entry is fresh and has a
  -- column that counts, where the statement that is sent has no RETURNING: whatever rows come back
  -- without an error of the call itself, none or many, and whatever error ends them, the client
  -- is told that one row was inserted, with the number in the first row or 0.
  pub run_insert-done :
      (env : Env H) (keyword : Bytes) (c : ℕ) (name rest sql : Bytes) (args : List Arg)
      (s : State H C) (conn : C) (info : TableInfo) (rows : Rows R)
      → to_upper keyword ≡ codes "INSERT INTO "
      → All IsPlain (c ∷ name)
      → lookup (build_table_cache_key s.session.database (c ∷ name)) s.cache.tables
        ≡ some (some info)
      → is_fresh env.now info ≡ true
      → wants_returning info.auto_incr_column sql ≡ true
      → s.session.pg_conn ≡ some conn
      → (pg.query (sql ++ (codes " RETURNING " ++ info.auto_incr_column)) args conn).1 ≡ sent rows
      → (run_insert pg lib env (keyword ++ (c ∷ (name ++ 32 ∷ rest))) sql args s).1
        ≡ done (returned_id pg.scan_id rows.found) 1
  unfolding run_insert
  run_insert-done env keyword c name rest sql args s conn info rows upper plain found fresh wants
        own answered =
      ap (λ o. (with_table pg lib env sql args s o).1)
        (extract_insert_table_name-plain keyword c name rest upper plain)
      ∙ ap (λ o. (with_column pg lib sql args s o).1)
          (get_auto_increment_column-fresh env.now env.stored_at
            (conn_of lib.tables s.session.pg_conn) s.session.database (c ∷ name) s.cache info found
            fresh)
      ∙ insert_with-returning info.auto_incr_column sql args s conn rows wants own answered

  run_statement-bare :
      (env : Env H) (query : Bytes) (s : State H C)
      → upper_query query ≡ codes "INSERT INTO"
      → to_upper query ≡ codes "INSERT INTO"
      → run_statement pg lib env query s ≡ (s, panics)
  unfolding run_statement run_insert is_ddl has_prefix
  run_statement-bare env query s e u =
      let sql = rewrite lib.ast lib.enabled query in
      rw e (ap (with_table pg lib env sql [] s) (extract_insert_table_name-bare query u))

  -- None of the tests takes the keyword alone for a statement of its own.
  dispatch-bare :
      (env : Env H) (query : Bytes) (s : State H C)
      → upper_query query ≡ codes "INSERT INTO"
      → lib.parse_select_variable query ≡ none
      → dispatch pg lib env query s ≡ run_statement pg lib env query s
  unfolding dispatch is_show_statement is_set_statement is_use_statement is_database_statement
      handle_select_variable run_other is_begin_statement is_commit_statement is_rollback_statement
      is_kill_statement is_replication_command is_acl_command run_plain is_flush_statement
      is_tablespace_statement has_prefix equal contains
  dispatch-bare env query s e v = rw e (
      ap (λ o. or_next pg lib (select_variable pg lib o s) (run_other pg lib env query)) v
      ∙ rw e refl)

  -- A query that is INSERT INTO, in any case of its letters, with nothing around it, on a connection
  -- that is ready, where the parser takes it for no variable: the handler panics.
  pub handle_query-panics :
      (dial : H → C) (env : Env H) (query : Bytes) (s t : State H C)
      → trim_space query ≡ query
      → to_upper query ≡ codes "INSERT INTO"
      → lib.parse_select_variable query ≡ none
      → ensure_pg_conn pg dial env
          (record s { tracker = (start_request s.session.id query env.now s.tracker).0 })
        ≡ (t, none)
      → (handle_query pg lib dial env query s).1 ≡ panics
  unfolding handle_query
  handle_query-panics dial env query s t trimmed u v ready =
      let upper : upper_query query ≡ codes "INSERT INTO" = ap to_upper trimmed ∙ u in
      ap (λ (r : State H C × Option Failure). (and_then r (dispatch pg lib env query)).1) ready
      ∙ ap (λ (r : State H C × Reply R). r.1)
          (dispatch-bare env query t upper v ∙ run_statement-bare env query t upper u)
