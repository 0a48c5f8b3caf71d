-- ===== src/Handler/Connection/Switching.antt =====
-- A switch of the search path, in `ensurePGConn` and in `UseDB`.
use mathlib.Core.Path.{subst}
use my_proxy.Base.{
  ℕ, ◌≡◌, refl, sym, ap, ◌∙◌, Bool, true, false, [], ◌∷◌, Option, none, some, Bytes, if◌then◌else◌,
  absurd_none, arith,
}
use my_proxy.Postgres.{PgError, Sent, refused, sent, Postgres}
use my_proxy.Handler.State.{
  on_session_conn, closed_conn, State, Failure, path_failed, pg_failed, exec_conn,
}
use my_proxy.Handler.Connection.{
  search_path_sql, schema_name, path_answer, set_path, switch_now, use_db,
}

-- What the server makes of the statement: where it succeeds, the path is the name that was sent. A
-- statement without a name does not succeed, so that `schema_name` changes nothing here.
pub record IsPath {C R : Type 0} (pg : Postgres C R) (path : C → Bytes) : Type 0 where
  pub sets :
      (name : Bytes) (c : C) (n : ℕ)
      → (pg.exec (search_path_sql name) [] c).1 ≡ sent n
      → path (pg.exec (search_path_sql name) [] c).0 ≡ schema_name name

pub schema_name_twice : (name : Bytes) → schema_name (schema_name name) ≡ schema_name name
schema_name_twice [] = refl
schema_name_twice (c ∷ name) = refl

pub same_conn : {C : Type 0} {o : Option C} {c d : C} → o ≡ some c → o ≡ some d → c ≡ d
same_conn p q = cc

pub both_values : {A : Type 0} (b : Bool) → b ≡ true → b ≡ false → A
both_values b p q = ground arith

module _ {H C : Type 0} (path : C → Bytes) where
  -- A connection that the handler has is the session's, and its path is that of the session's
  -- database where the handler says that it is set.
  pub record Linked (s : State H C) : Type 0 where
    pub conn : C
    pub own : s.session.pg_conn ≡ some conn
    pub right : s.search_path_set ≡ true → path conn ≡ schema_name s.session.database

  abbrev pub PathedBy : State H C → Option H → Type 0
  PathedBy s none = Unit
  PathedBy s (some h) = Linked s

  abbrev pub Pathed : State H C → Type 0
  Pathed s = PathedBy s s.pg_conn

  -- The outcome of a statement for the path: it is right, and set where there was no error.
  pub record Switched (s : State H C) (r : State H C × Option Failure) : Type 0 where
    pub same : r.0.pg_conn ≡ s.pg_conn
    pub linked : Linked r.0
    pub flagged : r.1 ≡ none → r.0.search_path_set ≡ true

module _ {H C R : Type 0} (pg : Postgres C R) (path : C → Bytes) where
  path_answer-Switched :
      (failure : PgError → Failure) (name : Bytes) (s : State H C) (c : C)
      → IsPath pg path
      → s.session.pg_conn ≡ some c
      → s.search_path_set ≡ false
      → schema_name name ≡ schema_name s.session.database
      → Switched path s (path_answer pg failure (exec_conn pg (search_path_sql name) [] s))
  path_answer-Switched failure name s c server own unset same =
      subst (λ r. Switched path s (path_answer pg failure r))
        (sym (ap (on_session_conn (pg.exec (search_path_sql name) []) closed_conn s) own))
        (go (pg.exec (search_path_sql name) [] c).1 refl)
    where
      ran : State H C
      ran = record s {
        session = record s.session { pg_conn = some (pg.exec (search_path_sql name) [] c).0 };
      }

      go :
          (answer : Sent ℕ)
          → (pg.exec (search_path_sql name) [] c).1 ≡ answer
          → Switched path s (path_answer pg failure (ran, answer))
      go (refused e) is = record {
        same = refl;
        linked = record {
          conn = (pg.exec (search_path_sql name) [] c).0;
          own = refl;
          right = λ h. both_values _ h unset;
        };
        flagged = λ h. absurd_none h;
      }
      go (sent n) is = record {
        same = refl;
        linked = record {
          conn = (pg.exec (search_path_sql name) [] c).0;
          own = refl;
          right = λ h. server.sets name c n is ∙ same;
        };
        flagged = λ h. refl;
      }

  pub set_path-Switched :
      (s : State H C) → IsPath pg path → Linked path s → Switched path s (set_path pg s)
  set_path-Switched s server l = go s.search_path_set refl
    where
      name : Bytes
      name = schema_name s.session.database

      go :
          (b : Bool)
          → s.search_path_set ≡ b
          → Switched path s (
              if b
              then (s, none)
              else path_answer pg (path_failed name) (exec_conn pg (search_path_sql name) [] s))
      go true e = record { same = refl; linked = l; flagged = λ h. e }
      go false e =
          path_answer-Switched (path_failed name) name s l.conn server l.own e
            (schema_name_twice s.session.database)

  pub Pathed-of :
      (s : State H C) (h : H) (r : State H C × Option Failure)
      → s.pg_conn ≡ some h
      → Switched path s r
      → Pathed path r.0
  Pathed-of s h r e w = subst (PathedBy path r.0) (sym (w.same ∙ e)) w.linked

  either-Pathed :
      (b : Bool) (q r : State H C × Option Failure)
      → Pathed path q.0
      → Pathed path r.0
      → Pathed path (if b then q else r).0
  either-Pathed true q r p w = p
  either-Pathed false q r p w = w

  pub use_db-Pathed :
      (name : Bytes) (s : State H C)
      → IsPath pg path
      → Pathed path s
      → Pathed path (use_db pg name s).0
  unfolding use_db
  use_db-Pathed name s server p = either-Pathed s.session.in_transaction _ _ p (go s.pg_conn refl)
    where
      switched : State H C
      switched = record s {
        session = record s.session { database = name };
        search_path_set = false;
      }

      go : (h : Option H) → s.pg_conn ≡ h → Pathed path (switch_now pg name switched h).0
      go none e = subst (PathedBy path switched) (sym e) tt
      go (some h) e =
          let l : Linked path s = subst (PathedBy path s) e p in
          Pathed-of switched h _ e
            (path_answer-Switched pg_failed name switched l.conn server l.own refl refl)
      -- A connection that is there or that the pool gives, and its path.
