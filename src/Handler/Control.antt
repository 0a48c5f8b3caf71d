-- ===== src/Handler/Control.antt =====
-- pkg/protocol/mysql/handler.go: the statements that the handler answers itself: databases, USE,
-- transactions, KILL, replication and privileges.
use my_proxy.Base.{
  Bool, true, false, ◌&&◌, List, [], ◌∷◌, ◌++◌, Option, none, some, Bytes, codes, get_elem?,
  if◌then◌else◌,
}
use my_proxy.Base.Eq.{equal}
use my_proxy.Base.Text.{has_prefix, to_upper, decimal}
use my_proxy.Base.Search.{fields, trim}
use my_proxy.Session.{
  Session, SessionError, begin_transaction, commit_transaction, rollback_transaction,
}
use my_proxy.Postgres.{Sent, refused, sent, Rows, Postgres}
use my_proxy.Admin.{AdminError, handle_replication_command}
use my_proxy.Mapper.Show.{handle_show}
use my_proxy.Rewrite.Accounts.{rewrite_acl}
use my_proxy.Handler.State.{
  State, mysql_failed, er_syntax, session_failed, admin_failed, invalid_use, Reply, done, failed,
  KillInfo, Library, session_exec, on_conn, exec_conn, closed_conn, reply_to, build_mysql_result,
  pg_failed,
}
use my_proxy.Handler.Connection.{use_db}
use my_proxy.Handler.Names.{upper_query}
use my_proxy.Handler.Variables.{reply_done}

abbrev is_word : Bytes → Option Bytes → Bool
is_word word none = false
is_word word (some text) = equal (to_upper text) word

abbrev has_if_not_exists : List Bytes → Bool
has_if_not_exists words =
    is_word (codes "IF") (get_elem? words 2)
    && (is_word (codes "NOT") (get_elem? words 3) && is_word (codes "EXISTS") (get_elem? words 4))

abbrev has_if_exists : List Bytes → Bool
has_if_exists words =
    is_word (codes "IF") (get_elem? words 2) && is_word (codes "EXISTS") (get_elem? words 3)

-- The marks that `Trim` takes off a name.
abbrev pub name_marks : Bytes
name_marks = codes "`\"';"

-- The statement for a schema, with what stands before and behind the name; `none` without a name.
abbrev schema_sql : Bytes → Bytes → Option Bytes → Option Bytes
schema_sql front back none = none
schema_sql front back (some word) = some (front ++ (trim word name_marks ++ back))

unfoldable pub create_schema_sql : List Bytes → Option Bytes
create_schema_sql words =
    if has_if_not_exists words
    then schema_sql (codes "CREATE SCHEMA IF NOT EXISTS ") [] (get_elem? words 5)
    else schema_sql (codes "CREATE SCHEMA ") [] (get_elem? words 2)

unfoldable pub drop_schema_sql : List Bytes → Option Bytes
drop_schema_sql words =
    if has_if_exists words
    then schema_sql (codes "DROP SCHEMA IF EXISTS ") (codes " CASCADE") (get_elem? words 4)
    else schema_sql (codes "DROP SCHEMA ") (codes " CASCADE") (get_elem? words 2)

abbrev pub kill_sql : KillInfo → Bytes
kill_sql k =
    codes "SELECT "
    ++ ((if k.query_only then codes "pg_cancel_backend" else codes "pg_terminate_backend")
        ++ (codes "(" ++ (decimal k.connection_id ++ codes ")")))

abbrev done_or_admin : {R : Type 0} → Option AdminError → Reply R
done_or_admin none = done 0 0
done_or_admin (some e) = failed (admin_failed e)

abbrev admin_reply : {R : Type 0} → Bool × Option AdminError → Option (Reply R)
admin_reply (true, e) = some (done_or_admin e)
admin_reply (false, e) = none

abbrev show_reply : {R : Type 0} → Sent (Rows R) → Reply R
show_reply (refused e) = failed (pg_failed e)
show_reply (sent rows) = build_mysql_result false rows

module _ {H C R : Type 0} (pg : Postgres C R) (lib : Library C R) where
  -- A statement of the handler's own, whose count of rows is not passed on.
  abbrev run_own : Bytes → State H C → State H C × Reply R
  run_own sql s =
      let (after, answer) = exec_conn pg sql [] s in (after, reply_to (λ n. done 0 0) answer)

  abbrev run_schema : Bytes → Option Bytes → State H C → State H C × Reply R
  run_schema missing none s = (s, failed (mysql_failed er_syntax missing))
  run_schema missing (some sql) s = run_own sql s

  unfoldable pub handle_database_command : Bytes → State H C → State H C × Reply R
  handle_database_command query s =
      let words = fields query in
      if has_prefix (upper_query query) (codes "CREATE DATABASE")
      then run_schema (codes "missing database name in CREATE DATABASE") (create_schema_sql words) s
      else if has_prefix (upper_query query) (codes "DROP DATABASE")
      then run_schema (codes "missing database name in DROP DATABASE") (drop_schema_sql words) s
      else (s, failed (mysql_failed er_syntax (codes "unsupported DATABASE command")))

  abbrev use_words : Bytes → List Bytes → State H C → State H C × Reply R
  use_words query (word ∷ name ∷ words) s = reply_done (use_db pg (trim name name_marks) s)
  use_words query _ s = (s, failed (invalid_use query))

  unfoldable pub handle_use_command : Bytes → State H C → State H C × Reply R
  handle_use_command query s = use_words query (fields query) s

  abbrev pub session_reply : State H C → Session C Bytes × Option SessionError → State H C × Reply R
  session_reply s (session, none) = (record s { session = session }, done 0 0)
  session_reply s (session, some e) = (record s { session = session }, failed (session_failed e))

  unfoldable pub run_begin : State H C → State H C × Reply R
  run_begin s = session_reply s (begin_transaction (session_exec pg) s.session)

  unfoldable pub run_commit : State H C → State H C × Reply R
  run_commit s = session_reply s (commit_transaction (session_exec pg) s.session)

  unfoldable pub run_rollback : State H C → State H C × Reply R
  run_rollback s = session_reply s (rollback_transaction (session_exec pg) s.session)

  -- An error of the server is only logged.
  abbrev kill : Option KillInfo → State H C → State H C × Reply R
  kill none s = (s, done 0 0)
  kill (some k) s = ((exec_conn pg (kill_sql k) [] s).0, done 0 0)

  unfoldable pub handle_kill_command : Bytes → State H C → State H C × Reply R
  handle_kill_command query s = kill (lib.parse_kill query) s

  -- `none` where a statement is left to what follows.
  unfoldable pub run_replication : Bytes → State H C → State H C × Option (Reply R)
  run_replication query s =
      let (after, answer) = on_conn (handle_replication_command pg query) (false, none) s in
      (after, admin_reply answer)

  -- An empty statement is FLUSH PRIVILEGES.
  abbrev acl_answer : Bytes × Bool → State H C → State H C × Option (Reply R)
  acl_answer (sql, false) s = (s, none)
  acl_answer ([], true) s = (s, some (done 0 0))
  acl_answer (c ∷ sql, true) s = let (after, reply) = run_own (c ∷ sql) s in (after, some reply)

  unfoldable pub run_acl : Bytes → State H C → State H C × Option (Reply R)
  run_acl query s = acl_answer (rewrite_acl lib.privilege_names lib.parse_acl query) s

  -- `handleShowCommand`.
  unfoldable pub handle_show_command : Bytes → State H C → State H C × Reply R
  handle_show_command query s =
      let (after, answer) =
        on_conn (handle_show pg lib.show_admin s.overrides query) closed_conn s in
      (after, show_reply answer)
