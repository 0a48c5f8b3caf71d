-- ===== src/Handler/Connection/Closing.antt =====
-- What the end of a connection leaves in the manager and in the pool.
use mathlib.Core.Path.{subst}
use my_proxy.Base.{
  ◌≡◌, ◌≢◌, refl, sym, ◌∙◌, ◌⊎◌, inl, inr, absurd_none, Bool, true, Option, none, some, Bytes,
}
use my_proxy.Base.Dict.{
  lookup, lookup-delete_self, lookup-delete_ne, lookup-insert_self, lookup-insert_ne,
}
use my_proxy.Base.Eq.{bytes_eq}
use my_proxy.Session.{Command, Session}
use my_proxy.Session.Manager.{Manager, get_session, add_session, remove_session, remove_found}
use my_proxy.Pool.{Pool, is_dedicated, release_for_session, close_known}
use my_proxy.Postgres.{Postgres}
use my_proxy.Handler.State.{State, session_exec}
use my_proxy.Handler.Connection.{close_connection, own_entry, release_taken}

module _ {H : Type 0} where
  -- The connection of a session, behind its release, in a pool with one for every session.
  release_for_session-lookup :
      (id other : Bytes) (p : Pool H)
      → is_dedicated p.mode ≡ true
      → id ≢ other
      → (lookup id (release_for_session id p).session_conns ≡ none)
        × (lookup other (release_for_session id p).session_conns ≡ lookup other p.session_conns)
  unfolding release_for_session
  release_for_session-lookup id other p own ne = rw own (go (lookup id p.session_conns) refl)
    where
      go :
          (found : Option H)
          → lookup id p.session_conns ≡ found
          → (lookup id (close_known id p found).session_conns ≡ none)
            × (lookup other (close_known id p found).session_conns ≡ lookup other p.session_conns)
      go none e = (e, refl)
      go (some c) e =
          (lookup-delete_self id p.session_conns, lookup-delete_ne id other p.session_conns ne)

module _ {C : Type 0} (exec : Command → C → C × Bool) (closing : C → Bool) where
  remove_session-lookup :
      (id other : Bytes) (entry : Session C Bytes) (m : Manager C Bytes)
      → lookup id m.sessions ≡ some entry
      → id ≢ other
      → (get_session id (remove_session exec closing id m).0 ≡ none)
        × (get_session other (remove_session exec closing id m).0 ≡ get_session other m)
  unfolding remove_session get_session
  remove_session-lookup id other entry m e ne =
      subst
        (λ found.
          (lookup id (remove_found exec closing id found m).sessions ≡ none)
          × (lookup other (remove_found exec closing id found m).sessions
              ≡ lookup other m.sessions))
        (sym e) (lookup-delete_self id m.sessions, lookup-delete_ne id other m.sessions ne)

module _ {H C R : Type 0} (pg : Postgres C R) (closing : C → Bool) where
  close_connection-manager :
      (s : State H C) (entry : Session C Bytes) (other : Bytes)
      → get_session s.session.id s.manager ≡ some entry
      → s.session.id ≢ other
      → (get_session s.session.id (close_connection pg closing s).manager ≡ none)
        × (get_session other (close_connection pg closing s).manager ≡ get_session other s.manager)
  unfolding close_connection get_session add_session
  close_connection-manager s entry other e ne =
      let (gone, kept) =
        remove_session-lookup (session_exec pg) closing s.session.id other s.session
          (add_session s.session s.manager)
          (lookup-insert_self s.session.id s.session s.manager.sessions) ne in
      subst
        (λ found.
          (get_session s.session.id
              (remove_session (session_exec pg) closing s.session.id (own_entry pg s found)).0
            ≡ none)
          × (get_session other
                (remove_session (session_exec pg) closing s.session.id (own_entry pg s found)).0
              ≡ get_session other s.manager))
        (sym e) (gone, kept ∙ lookup-insert_ne s.session.id other s.session s.manager.sessions ne)

  -- The session's connection in the pool is released only by a handler that holds it.
  release_taken-lookup :
      (conn : Option H) (id other : Bytes) (p : Pool H)
      → ((h : H) × (conn ≡ some h)) ⊎ (lookup id p.session_conns ≡ none)
      → is_dedicated p.mode ≡ true
      → id ≢ other
      → (lookup id (release_taken pg conn id p).session_conns ≡ none)
        × (lookup other (release_taken pg conn id p).session_conns ≡ lookup other p.session_conns)
  release_taken-lookup none id other p (inl (h, e)) own ne = absurd_none (sym e)
  release_taken-lookup none id other p (inr free) own ne = (free, refl)
  release_taken-lookup (some h) id other p held own ne =
      release_for_session-lookup id other p own ne

  -- The end of a connection that is registered, in a mode with a connection for each session, where
  -- its handler holds a connection, or the pool has none for it, as before its first query: the
  -- manager has no session and the pool no connection under its identifier any more, and under any
  -- other both have what they had.
  pub close_connection-released :
      (s : State H C) (entry : Session C Bytes) (other : Bytes)
      → get_session s.session.id s.manager ≡ some entry
      → ((h : H) × (s.pg_conn ≡ some h)) ⊎ (lookup s.session.id s.pool.session_conns ≡ none)
      → is_dedicated s.pool.mode ≡ true
      → s.session.id ≢ other
      → (get_session s.session.id (close_connection pg closing s).manager ≡ none)
        × (lookup s.session.id (close_connection pg closing s).pool.session_conns ≡ none)
        × (get_session other (close_connection pg closing s).manager ≡ get_session other s.manager)
        × (lookup other (close_connection pg closing s).pool.session_conns
            ≡ lookup other s.pool.session_conns)
  unfolding close_connection
  close_connection-released s entry other e held own ne =
      let (gone, kept) = close_connection-manager s entry other e ne in
      let (free, left) = release_taken-lookup s.pg_conn s.session.id other s.pool held own ne in
      (gone, free, kept, left)
