-- ===== src/Handler/Tests.antt =====
-- Handlers on small servers.
mod Statements
use my_proxy.Base.{
  inl, ℕ, ◌≡◌, ◌≢◌, refl, Bool, true, false, ◌||◌, List, [], ◌∷◌, ◌++◌, none, some, Bytes, codes,
  drop, if◌then◌else◌, arith, All,
}
use my_proxy.Base.Dict.{lookup, insert}
use my_proxy.Base.Eq.{equal, equal_iff, bytes_eq, nat_eq}
use my_proxy.Base.Text.{has_prefix, to_upper, trim_left, trim_right, contains_byte, replace_from}
use my_proxy.Base.Search.{contains}
use my_proxy.Session.{new_session, get_prepared_statement, PreparedStatement}
use my_proxy.Session.Manager.{new_manager, get_session}
use my_proxy.Session.Transactions.{IsServer, Agrees}
use my_proxy.Schema.Tables.{TableInfo}
use my_proxy.Pool.{Mode, acquire_for_session}
use my_proxy.Tracker.{new_tracker, start_request}
use my_proxy.Postgres.{server_error, other_error, Sent, refused, sent, Postgres}
use my_proxy.Rewrite.Statements.{strip_tidb_syntax, rewrite, rewrite_prepared}
use my_proxy.Handler.State.{State, done, panics, Library, Env, session_exec}
use my_proxy.Handler.Connection.{use_db, schema_name, ensure_pg_conn, close_connection}
use my_proxy.Handler.Connection.Switching.{IsPath}
use my_proxy.Handler.Connection.Path.{
  PathOp, ready, switch, client_statement, run_ops, ensure_pg_conn-run_ops,
}
use my_proxy.Handler.Connection.Closing.{close_connection-released}
use my_proxy.Handler.Names.Plain.{IsPlain}
use my_proxy.Handler.Query.{run_insert, dispatch, handle_query}
use my_proxy.Handler.Query.Inserts.{run_insert-done, handle_query-panics}
use my_proxy.Handler.Query.Transactions.{
  begins, commits, commit_semicolon, dispatch_all, dispatch_all-Agrees, dispatch-disagrees,
}
use my_proxy.Handler.Prepared.{new_stmt, add_stmt, stmt_id, handle_stmt_close}
use my_proxy.Handler.Prepared.Numbers.{add_all, add_all-numbers, add_stmt-overwrites}

-- A library that parses nothing.
abbrev pub library : {C : Type 0} → Library C ℕ
library = record {
  ast = none;
  enabled = true;
  parse_acl = λ q. none;
  privilege_names = λ n. none;
  parse_set = λ q. [];
  parse_select_variable = λ q. none;
  parse_kill = λ q. none;
  show_admin = λ q c. (c, refused (other_error []));
  tables = λ c. record {
    auto_increment = λ s t. none;
    column_rows = λ s t. none;
    key_rows = λ s t. none;
  };
}

abbrev pub env : Env ℕ
env = record {
  driver = record { parsed = true; connected = some 8; timezone_set = true; acquired = none };
  now = 5;
  stored_at = 6;
}

-- A handler of the session `s1` of the database `shop`, with no connection.
abbrev fresh : {C : Type 0} → State ℕ C
fresh = record {
  pool = record { mode = Mode.hybrid; session_conns = []; taken = []; closed = [] };
  manager = new_manager;
  cache = record { tables = []; ttl = 100; next_table_id = 0 };
  overrides = [];
  tracker = new_tracker;
  session = new_session (codes "s1") 0 1 (codes "app") (codes "shop") (codes "::1");
  pg_conn = none;
  search_path_set = false;
}

-- A handler with a connection in a state that is given.
abbrev pub connected : {C : Type 0} → C → State ℕ C
connected {C} c =
    let s : State ℕ C = fresh in
    record s {
      session = record s.session { pg_conn = some c };
      pg_conn = some 8;
      search_path_set = true;
    }

-- A server whose connection is its search path.
abbrev serve_path : Bytes → Bytes → Bytes × Sent ℕ
serve_path sql c =
    if has_prefix sql (codes "SET search_path TO ")
    then (schema_name (drop 19 sql), sent 0)
    else (c, sent 0)

abbrev paths : Postgres Bytes ℕ
paths = record {
  exec = λ sql args c. serve_path sql c;
  query = λ sql args c. (c, refused (other_error []));
  query_text = λ sql c. (c, refused (other_error []));
  scan_id = λ r. some r;
}

abbrev itself : Bytes → Bytes
itself c = c

paths-IsPath : IsPath paths itself
unfolding has_prefix
paths-IsPath = record { sets = right }
  where
    right :
        (name : Bytes) (c : Bytes) (n : ℕ)
        → (serve_path (codes "SET search_path TO " ++ name) c).1 ≡ sent n
        → (serve_path (codes "SET search_path TO " ++ name) c).0 ≡ schema_name name
    right name c n e = refl

abbrev dial_path : ℕ → Bytes
dial_path h = codes "public"

abbrev ops : List (PathOp ℕ)
ops = ready env ∷ switch (codes "stock") ∷ client_statement (codes "SELECT 1") ∷ []

ensure_pg_conn-run_ops_example :
    (c : Bytes) × ((ensure_pg_conn paths dial_path env
        (run_ops paths itself dial_path ops fresh)).0.session.pg_conn
      ≡ some c)
    × (c
        ≡ schema_name
            (ensure_pg_conn paths dial_path env
              (run_ops paths itself dial_path ops fresh)).0.session.database)
unfolding run_ops ensure_pg_conn use_db acquire_for_session has_prefix lookup equal insert
ensure_pg_conn-run_ops_example =
    ensure_pg_conn-run_ops paths itself dial_path env ops fresh paths-IsPath
      (tt, (tt, ((λ c. refl), tt))) refl refl

differs : codes "s1" ≢ codes "s2"
unfolding equal
differs e =
    let same : false ≡ true = (equal_iff (codes "s1") (codes "s2")).1 e in absurd (ground arith)

-- A connection that is registered with the manager and with the pool.
abbrev registered : State ℕ Bytes
registered =
    let s : State ℕ Bytes = connected (codes "shop") in
    record s {
      manager = record { sessions = (codes "s1", s.session) ∷ [] };
      pool = record s.pool { session_conns = (codes "s1", 8) ∷ (codes "s2", 9) ∷ [] };
    }

abbrev closes : Bytes → Bool
closes c = false

close_connection-released_example :
    (get_session (codes "s1") (close_connection paths closes registered).manager ≡ none)
    × (lookup (codes "s1") (close_connection paths closes registered).pool.session_conns ≡ none)
    × (get_session (codes "s2") (close_connection paths closes registered).manager
        ≡ get_session (codes "s2") registered.manager)
    × (lookup (codes "s2") (close_connection paths closes registered).pool.session_conns
        ≡ lookup (codes "s2") registered.pool.session_conns)
unfolding get_session lookup equal
close_connection-released_example =
    close_connection-released paths closes registered registered.session (codes "s2") refl
      (inl (8, refl)) refl differs

-- A server on which the only row is the number 7, and another error ends the rows.
abbrev duplicates : Postgres Bytes ℕ
duplicates = record paths {
  query =
      λ sql args c. (c, sent (record { found = []; err = some (server_error (codes "23505") []) }));
}

abbrev users : TableInfo
users = record {
  table_name = codes "users";
  schema = codes "shop";
  auto_incr_column = codes "id";
  columns = [];
  primary_key = [];
  table_id = 0;
  last_refreshed = 4;
  ttl = 100;
}

abbrev with_users : State ℕ Bytes
with_users =
    let s : State ℕ Bytes = connected (codes "shop") in
    record s { cache = record s.cache { tables = (codes "shop.users", some users) ∷ [] } }

users-IsPlain : All IsPlain (codes "users")
unfolding contains_byte
users-IsPlain = (
  record { solid = refl; unquoted = refl },
  (
    record { solid = refl; unquoted = refl },
    (
      record { solid = refl; unquoted = refl },
      (record { solid = refl; unquoted = refl }, (record { solid = refl; unquoted = refl }, tt)),
    ),
  ),
)

run_insert-done_example :
    (run_insert duplicates library env
      (codes "insert into users (name) values ('x')")
      (codes "INSERT INTO users (name) VALUES ('x')")
      []
      with_users).1
    ≡ done 0 1
unfolding lookup equal to_upper contains has_prefix
run_insert-done_example =
    run_insert-done duplicates library env (codes "insert into ") b'u' (codes "sers")
      (codes "(name) values ('x')") (codes "INSERT INTO users (name) VALUES ('x')") [] with_users
      (codes "shop") users (record { found = []; err = some (server_error (codes "23505") []) })
      refl users-IsPlain refl refl refl refl refl

handle_query-panics_example :
    (handle_query paths library dial_path env (codes "insert into") (connected (codes "shop"))).1
    ≡ panics
unfolding to_upper trim_left trim_right ensure_pg_conn
handle_query-panics_example =
    handle_query-panics paths library dial_path env (codes "insert into") (connected (codes "shop"))
      (record (connected (codes "shop")) {
        tracker = (start_request (codes "s1") (codes "insert into") 5 new_tracker).0;
      })
      refl refl refl refl

add_all-numbers_example :
    (t : PreparedStatement) × (get_prepared_statement 2
        (add_all library
          (codes "SELECT ?" ∷ codes "SELECT 2" ∷ codes "SELECT 3" ∷ [])
          (connected (codes "shop"))).session
      ≡ some t)
    × (t.id ≡ 2)
    × (t.original_sql ≡ codes "SELECT 2")
    × (t.sql ≡ (rewrite_prepared none true (codes "SELECT 2")).0)
    × (t.param_count ≡ (rewrite_prepared none true (codes "SELECT 2")).1)
add_all-numbers_example =
    add_all-numbers library (codes "SELECT ?" ∷ []) (codes "SELECT 2") (codes "SELECT 3" ∷ [])
      (connected (codes "shop")) refl (omega arith)
