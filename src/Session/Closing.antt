-- ===== src/Session/Closing.antt =====
-- `Close` and the transaction at the server.
use mathlib.Core.Path.{subst}
use my_proxy.Base.{◌≡◌, refl, Bool, true, false, Option, none, some, if◌then◌else◌}
use my_proxy.Session.{Command, rollback_tx, Session, close_conn, close_session}
use my_proxy.Session.Transactions.{IsServer, IsOpen, IsCovered, Covers}

module _ {C V : Type 0} (open_tx : C → Bool) (exec : Command → C → C × Bool) where
  -- `Close` of a session whose flag covers its transaction, where a rollback that is sent succeeds:
  -- the session has no connection any more, and the connection was closed with no transaction open.
  pub close_session-IsOpen :
      (closing : C → Bool) (s : Session C V)
      → IsServer open_tx exec
      → ((c : C) → (exec rollback_tx c).1 ≡ false)
      → Covers open_tx exec s
      → ((close_session exec closing s).0.pg_conn ≡ none)
        × IsOpen open_tx (close_session exec closing s).1.0 false
  unfolding close_session
  close_session-IsOpen closing s server works h = closes s.pg_conn refl
    where
      last :
          (b : Bool) (c : C)
          → IsCovered open_tx (some c) b
          → open_tx (if b then (exec rollback_tx c).0 else c) ≡ false
      last true c e = server.rolls_back c (works c)
      last false c e = e

      closes :
          (conn : Option C)
          → s.pg_conn ≡ conn
          → ((close_conn exec closing conn s).0.pg_conn ≡ none)
            × IsOpen open_tx (close_conn exec closing conn s).1.0 false
      closes none e = (e, tt)
      closes (some c) e =
          (refl, last s.in_transaction c (subst (λ t. IsCovered open_tx t s.in_transaction) e h))
