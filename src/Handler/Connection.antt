-- ===== src/Handler/Connection.antt =====
-- pkg/protocol/mysql/handler.go: `NewConnection`, `ensurePGConn`, `UseDB` and `Close`.
pub mod Switching
pub mod Path
pub mod Closing
use my_proxy.Base.{
  ℕ, Bool, true, false, List, [], ◌∷◌, ◌++◌, Option, none, some, Bytes, codes, if◌then◌else◌,
}
use my_proxy.Session.{SessionError, Session, new_session, set_pg_conn}
use my_proxy.Session.Manager.{Manager, add_session, get_session, remove_session}
use my_proxy.Schema.{Cache}
use my_proxy.Pool.{Pool, Answer, acquire_for_session, release_for_session}
use my_proxy.Tracker.{Tracker}
use my_proxy.Mapper.Variables.Access.{Overrides}
use my_proxy.Postgres.{PgError, Sent, refused, sent, Postgres}
use my_proxy.Handler.State.{
  State, Failure, pool_failed, path_failed, pg_failed, mysql_failed, er_unknown, Env, session_exec,
  exec_conn,
}

-- The statement that switches to a database.
abbrev pub search_path_sql : Bytes → Bytes
search_path_sql name = codes "SET search_path TO " ++ name

abbrev pub schema_name : Bytes → Bytes
schema_name [] = codes "public"
schema_name (c ∷ name) = c ∷ name

-- The shared fields of a state are those of any handler; `host` is the client's.
unfoldable pub new_connection : {H C : Type 0} → Bytes → ℕ → Bytes → State H C → State H C
new_connection id now host s =
    let session = new_session id now now [] [] host in
    record s {
      manager = add_session session s.manager;
      session = session;
      pg_conn = none;
      search_path_set = false;
    }

abbrev pub session_after :
    {C : Type 0}
    → Session C Bytes
    → Option (Session C Bytes × (Option C × Option SessionError))
    → Session C Bytes
session_after s none = s
session_after s (some (after, out)) = after

module _ {H C R : Type 0} (pg : Postgres C R) where
  -- Behind the statement for the search path.
  abbrev pub path_answer : (PgError → Failure) → State H C × Sent ℕ → State H C × Option Failure
  path_answer failure (s, refused e) = (s, some (failure e))
  path_answer failure (s, sent n) = (record s { search_path_set = true }, none)

  abbrev pub set_path : State H C → State H C × Option Failure
  set_path s =
      if s.search_path_set
      then (s, none)
      else let name = schema_name s.session.database in
        path_answer (path_failed name) (exec_conn pg (search_path_sql name) [] s)

  abbrev pub switch_now : Bytes → State H C → Option H → State H C × Option Failure
  switch_now name s none = (s, none)
  switch_now name s (some h) = path_answer pg_failed (exec_conn pg (search_path_sql name) [] s)

  unfoldable pub use_db : Bytes → State H C → State H C × Option Failure
  use_db name s =
      if s.session.in_transaction
      then (
        s,
        some (mysql_failed er_unknown (codes "cannot change database while transaction is active")),
      )
      else let named = record s {
        session = record s.session { database = name };
        search_path_set = false;
      } in
        switch_now name named s.pg_conn

  -- The manager's entry is the session itself, where there is one under its identifier.
  abbrev pub own_entry : State H C → Option (Session C Bytes) → Manager C Bytes
  own_entry s none = s.manager
  own_entry s (some other) = add_session s.session s.manager

  abbrev pub release_taken : Option H → Bytes → Pool H → Pool H
  release_taken none id pool = pool
  release_taken (some h) id pool = release_for_session id pool

  -- `closing` says whether the driver's `Close` of a connection returns an error.
  unfoldable pub close_connection : (C → Bool) → State H C → State H C
  close_connection closing s =
      let (manager, closed) =
        remove_session (session_exec pg) closing s.session.id
          (own_entry s (get_session s.session.id s.manager)) in
      record s {
        manager = manager;
        session = session_after s.session closed;
        pool = release_taken s.pg_conn s.session.id s.pool;
      }

module _ {H C : Type 0} (dial : H → C) where
  -- What is done with the pool's answer.
  abbrev pub take_answer : Pool H × Answer H → State H C → State H C × Option Failure
  take_answer (pool, Answer.failed e) s = (record s { pool = pool }, some (pool_failed e))
  take_answer (pool, Answer.got h) s = (
    record s {
      pool = pool;
      pg_conn = some h;
      session = set_pg_conn (some (dial h)) s.session;
      search_path_set = false;
    },
    none,
  )

  abbrev pub take_connection : Env H → State H C → Option H → State H C × Option Failure
  take_connection env s none = take_answer (acquire_for_session env.driver s.session.id s.pool) s
  take_connection env s (some h) = (s, none)

module _ {H C R : Type 0} (pg : Postgres C R) (dial : H → C) where
  abbrev pub path_behind : State H C × Option Failure → State H C × Option Failure
  path_behind (s, some e) = (s, some e)
  path_behind (s, none) = set_path pg s

  unfoldable pub ensure_pg_conn : Env H → State H C → State H C × Option Failure
  ensure_pg_conn env s = path_behind (take_connection dial env s s.pg_conn)
