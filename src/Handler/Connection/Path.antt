-- ===== src/Handler/Connection/Path.antt =====
-- The search path of the connection is the session's database.
use mathlib.Core.Path.{subst}
use my_proxy.Base.{
  ◌≡◌, refl, sym, ap, ◌∙◌, true, false, List, [], ◌∷◌, Option, none, some, Bytes, All, absurd_none,
}
use my_proxy.Pool.{Pool, Answer, acquire_for_session}
use my_proxy.Postgres.{Postgres}
use my_proxy.Handler.State.{on_session_conn, closed_conn, State, Failure, Env, exec_conn}
use my_proxy.Handler.Connection.{
  schema_name, use_db, take_answer, take_connection, path_behind, ensure_pg_conn,
}
use my_proxy.Handler.Connection.Switching.{
  IsPath, same_conn, both_values, Linked, PathedBy, Pathed, Switched, set_path-Switched, Pathed-of,
  use_db-Pathed,
}

pub data PathOp (H : Type 0) : Type 0 where
  ready : Env H → PathOp H
  switch : Bytes → PathOp H
  client_statement : Bytes → PathOp H

module _ {H C R : Type 0} (pg : Postgres C R) (path : C → Bytes) (dial : H → C) where
  -- A statement of a client that leaves the path.
  abbrev pub Keeps : PathOp H → Type 0
  Keeps (client_statement sql) = (c : C) → path (pg.exec sql [] c).0 ≡ path c
  Keeps _ = Unit

  unfoldable pub run_ops : List (PathOp H) → State H C → State H C
  run_ops [] s = s
  run_ops (ready env ∷ ops) s = run_ops ops (ensure_pg_conn pg dial env s).0
  run_ops (switch name ∷ ops) s = run_ops ops (use_db pg name s).0
  run_ops (client_statement sql ∷ ops) s = run_ops ops (exec_conn pg sql [] s).0

  ensure_pg_conn-Switched :
      (env : Env H) (s : State H C)
      → IsPath pg path
      → Pathed path s
      → Pathed path (ensure_pg_conn pg dial env s).0
        × ((ensure_pg_conn pg dial env s).1 ≡ none
            → Linked path (ensure_pg_conn pg dial env s).0
              × ((ensure_pg_conn pg dial env s).0.search_path_set ≡ true))
  unfolding ensure_pg_conn
  ensure_pg_conn-Switched env s server p = there s.pg_conn refl
    where
      Good : State H C × Option Failure → Type 0
      Good r = Pathed path r.0 × (r.1 ≡ none → Linked path r.0 × (r.0.search_path_set ≡ true))

      of_switched :
          (t : State H C) (h : H) (r : State H C × Option Failure)
          → t.pg_conn ≡ some h
          → Switched path t r
          → Good r
      of_switched t h r e w = (Pathed-of pg path t h r e w, λ fine. (w.linked, w.flagged fine))

      answered :
          (answer : Pool H × Answer H)
          → s.pg_conn ≡ none
          → Good (path_behind pg dial (take_answer dial answer s))
      answered (pool, Answer.failed e) absent = (
        subst (PathedBy path (record s { pool = pool })) (sym absent) tt,
        λ fine. absurd_none fine,
      )
      answered (pool, Answer.got h) absent = of_switched _ h _ refl (
          set_path-Switched pg path _ server
            (record { conn = dial h; own = refl; right = λ set. both_values false set refl }))

      there :
          (h : Option H) → s.pg_conn ≡ h → Good (path_behind pg dial (take_connection dial env s h))
      there none e = answered (acquire_for_session env.driver s.session.id s.pool) e
      there (some h) e =
          of_switched s h _ e (set_path-Switched pg path s server (subst (PathedBy path s) e p))

  exec_conn-Pathed :
      (sql : Bytes) (s : State H C)
      → Keeps (client_statement sql)
      → Pathed path s
      → Pathed path (exec_conn pg sql [] s).0
  exec_conn-Pathed sql s keeps p = kept s.session.pg_conn refl
    where
      ran : C → State H C
      ran c = record s { session = record s.session { pg_conn = some (pg.exec sql [] c).0 } }

      linked :
          (c : C)
          → s.session.pg_conn ≡ some c
          → (h : Option H) → PathedBy path s h
          → PathedBy path (ran c) h
      linked c e none q = tt
      linked c e (some h) l = record {
        conn = (pg.exec sql [] c).0;
        own = refl;
        right = λ set. keeps c ∙ ap path (same_conn e l.own) ∙ l.right set;
      }

      kept :
          (conn : Option C)
          → s.session.pg_conn ≡ conn
          → Pathed path (on_session_conn (pg.exec sql []) closed_conn s conn).0
      kept none e = p
      kept (some c) e = linked c e s.pg_conn p

  run_ops-Pathed :
      (ops : List (PathOp H)) (s : State H C)
      → IsPath pg path
      → All Keeps ops
      → Pathed path s
      → Pathed path (run_ops ops s)
  unfolding run_ops
  run_ops-Pathed [] s server k p = p
  run_ops-Pathed (ready env ∷ ops) s server (one, k) p =
      run_ops-Pathed ops _ server k (ensure_pg_conn-Switched env s server p).0
  run_ops-Pathed (switch name ∷ ops) s server (one, k) p =
      run_ops-Pathed ops _ server k (use_db-Pathed pg path name s server p)
  run_ops-Pathed (client_statement sql ∷ ops) s server (one, k) p =
      run_ops-Pathed ops _ server k (exec_conn-Pathed sql s one p)

  -- A handler with no connection yet, on a server on which a switch that succeeds sets the path:
  -- behind any preparations of the connection, changes of the database and statements that leave
  -- the path, whatever failed, a preparation that returns no error leaves a connection whose path is
  -- that of the session's database, or of the schema public where that is empty.
  pub ensure_pg_conn-run_ops :
      (env : Env H) (ops : List (PathOp H)) (s : State H C)
      → IsPath pg path
      → All Keeps ops
      → s.pg_conn ≡ none
      → (ensure_pg_conn pg dial env (run_ops ops s)).1 ≡ none
      → (c : C) × ((ensure_pg_conn pg dial env (run_ops ops s)).0.session.pg_conn ≡ some c)
        × (path c ≡ schema_name (ensure_pg_conn pg dial env (run_ops ops s)).0.session.database)
  ensure_pg_conn-run_ops env ops s server k absent fine =
      let start : Pathed path s = subst (PathedBy path s) (sym absent) tt in
      let (l, set) =
        (ensure_pg_conn-Switched env (run_ops ops s) server (run_ops-Pathed ops s server k start)).1
          fine in
      (l.conn, l.own, l.right set)
