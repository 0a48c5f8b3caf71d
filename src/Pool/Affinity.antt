-- ===== src/Pool/Affinity.antt =====
-- A session keeps its connection until it is released.
use my_proxy.Base.{
  Bool, true, false, ◌≡◌, ◌≢◌, ap, ◌∙◌, List, [], ◌∷◌, Option, none, some, Bytes, All, Bool-cases,
  inl, inr, arith,
}
use my_proxy.Base.Dict.{lookup, lookup-insert_ne, lookup-delete_ne}
use my_proxy.Base.Eq.{equal, equal_iff, bytes_eq}
use my_proxy.Pool.{
  Driver, Answer, Pool, Call, is_dedicated, dedicated, known_or_new, acquire_for_session,
  release_for_session, close_known, run_pool,
}

-- A call that is not the release of the session.
abbrev pub Spares : {Conn : Type 0} → Bytes → Call Conn → Type 0
Spares id (Call.acquire d other) = Unit
Spares id (Call.release other) = other ≢ id

no_both : {A : Type 0} (b : Bool) → b ≡ true → b ≡ false → A
no_both b p q = ground arith

-- A pool that gives every session a connection of its own, and this one to the session.
record Has {Conn : Type 0} (id : Bytes) (c : Conn) (p : Pool Conn) : Type 0 where
  own : is_dedicated p.mode ≡ true
  kept : lookup id p.session_conns ≡ some c

module _ {Conn : Type 0} where
  dedicated-Has :
      (zone : Bool) (new : Option Conn) (id other : Bytes) (c : Conn) (p : Pool Conn)
      → other ≢ id
      → Has id c p
      → Has id c (dedicated zone new other p).0
  dedicated-Has zone none id other c p ne h = h
  dedicated-Has true (some d) id other c p ne h = record {
    own = h.own;
    kept = lookup-insert_ne other id d p.session_conns ne ∙ h.kept;
  }
  dedicated-Has false (some d) id other c p ne h = record { own = h.own; kept = h.kept }

  known_or_new-Has :
      (d : Driver Conn) (id other : Bytes) (c : Conn) (p : Pool Conn)
      → other ≢ id
      → (found : Option Conn) → Has id c p
      → Has id c (known_or_new d other p found).0
  known_or_new-Has d id other c p ne (some k) h = h
  known_or_new-Has d id other c p ne none h = elim (Bool-cases d.parsed) [
    | inl e ↦ rw e (dedicated-Has d.timezone_set d.connected id other c p ne h)
    | inr e ↦ rw e h
  ]

  -- The session's own call gives its connection and changes nothing.
  acquire_for_session_known :
      (d : Driver Conn) (id : Bytes) (c : Conn) (p : Pool Conn)
      → Has id c p
      → acquire_for_session d id p ≡ (p, Answer.got c)
  unfolding acquire_for_session
  acquire_for_session_known d id c p h = rw h.own (ap (known_or_new d id p) h.kept)

  acquire_for_session-Has :
      (d : Driver Conn) (id other : Bytes) (c : Conn) (p : Pool Conn)
      → Has id c p
      → Has id c (acquire_for_session d other p).0
  unfolding acquire_for_session
  acquire_for_session-Has d id other c p h = elim (Bool-cases (equal other id)) [
    | inl e ↦
        let same : other ≡ id = (equal_iff other id).0 e in
        let known : acquire_for_session d other p ≡ (p, Answer.got c) =
          ap (λ k. acquire_for_session d k p) same ∙ acquire_for_session_known d id c p h in
        rw known h
    | inr e ↦
        let ne : other ≢ id = λ same. no_both (equal other id) ((equal_iff other id).1 same) e in
        rw h.own (known_or_new-Has d id other c p ne (lookup other p.session_conns) h)
  ]

  release_for_session-Has :
      (id other : Bytes) (c : Conn) (p : Pool Conn)
      → other ≢ id
      → Has id c p
      → Has id c (release_for_session other p)
  unfolding release_for_session
  release_for_session-Has id other c p ne h = rw h.own (go (lookup other p.session_conns))
    where
      go : (found : Option Conn) → Has id c (close_known other p found)
      go none = h
      go (some k) = record {
        own = h.own;
        kept = lookup-delete_ne other id p.session_conns ne ∙ h.kept;
      }

  run_pool-Has :
      (id : Bytes) (c : Conn) (calls : List (Call Conn)) (p : Pool Conn)
      → All (Spares id) calls
      → Has id c p
      → Has id c (run_pool calls p)
  unfolding run_pool
  run_pool-Has id c [] p s h = h
  run_pool-Has id c (Call.acquire d other ∷ calls) p (one, s) h =
      run_pool-Has id c calls _ s (acquire_for_session-Has d id other c p h)
  run_pool-Has id c (Call.release other ∷ calls) p (ne, s) h =
      run_pool-Has id c calls _ s (release_for_session-Has id other c p ne h)

  -- In a mode with a connection for each session, a session that has one gets the same from every
  -- later call, whatever the driver would answer, and the call changes nothing, as long as no call
  -- between releases the session, whichever others acquire or are released.
  pub acquire_for_session-run_pool :
      (d : Driver Conn) (id : Bytes) (c : Conn) (calls : List (Call Conn)) (p : Pool Conn)
      → is_dedicated p.mode ≡ true
      → lookup id p.session_conns ≡ some c
      → All (Spares id) calls
      → acquire_for_session d id (run_pool calls p) ≡ (run_pool calls p, Answer.got c)
  acquire_for_session-run_pool d id c calls p own kept s =
      acquire_for_session_known d id c (run_pool calls p)
        (run_pool-Has id c calls p s (record { own = own; kept = kept }))
