-- ===== src/Session/Transactions.antt =====
-- The flag of a session and the transaction at the server.
use mathlib.Core.Path.{subst}
use my_proxy.Base.{
  ℕ, ◌≡◌, refl, ◌∙◌, ◌⊎◌, Bool, true, false, not, List, [], ◌∷◌, Option, none, some, if◌then◌else◌,
  Bool-cases, inl, inr, Bytes,
}
use my_proxy.Session.{
  Command, begin_tx, commit_tx, rollback_tx, SessionError, begin_failed, commit_failed,
  no_connection, rollback_failed, Session, send, send_or_refuse, begin_transaction,
  commit_transaction, rollback_transaction, switch_mode, set_autocommit, set_session_var,
  set_user_var, set_last_insert_id, update_last_active,
}

-- What the sessions rely on: the server knows whether a transaction is open. A command that
-- succeeds opens or ends it, and a BEGIN that fails leaves it. Of a COMMIT or a ROLLBACK that fails
-- nothing is said: PostgreSQL ends the transaction of a COMMIT that fails by a deferred constraint,
-- and keeps it where the command was not run.
pub record IsServer {C : Type 0} (open_tx : C → Bool) (exec : Command → C → C × Bool) : Type 0 where
  pub begins : (c : C) → (exec begin_tx c).1 ≡ false → open_tx (exec begin_tx c).0 ≡ true
  pub commits : (c : C) → (exec commit_tx c).1 ≡ false → open_tx (exec commit_tx c).0 ≡ false
  pub rolls_back : (c : C) → (exec rollback_tx c).1 ≡ false → open_tx (exec rollback_tx c).0 ≡ false
  pub stays : (c : C) → (exec begin_tx c).1 ≡ true → open_tx (exec begin_tx c).0 ≡ open_tx c

-- The calls that a client's statements lead to.
pub data Op (V : Type 0) : Type 0 where
  begin commit rollback : Op V
  autocommit : Bool → Op V
  session_var : Bytes → V → Op V
  user_var : Bytes → V → Op V
  insert_id : ℕ → Op V
  active : ℕ → Op V

-- The state of a transaction that a connection is in, where there is a connection.
abbrev pub IsOpen : {C : Type 0} → (C → Bool) → Option C → Bool → Type 0
IsOpen open_tx none flag = Unit
IsOpen open_tx (some c) flag = open_tx c ≡ flag

-- Where the flag is down, the connection has no transaction.
abbrev pub IsCovered : {C : Type 0} → (C → Bool) → Option C → Bool → Type 0
IsCovered open_tx conn true = Unit
IsCovered open_tx conn false = IsOpen open_tx conn false

-- A call that could not end the transaction.
pub data IsLost : Option SessionError → Type 0 where
  lost_commit : IsLost (some commit_failed)
  lost_rollback : IsLost (some rollback_failed)

module _ {C V : Type 0} (exec : Command → C → C × Bool) where
  unfoldable pub apply : Op V → Session C V → Session C V × Option SessionError
  apply begin s = begin_transaction exec s
  apply commit s = commit_transaction exec s
  apply rollback s = rollback_transaction exec s
  apply (autocommit b) s = set_autocommit exec b s
  apply (session_var key value) s = (set_session_var key value s, none)
  apply (user_var key value) s = (set_user_var key value s, none)
  apply (insert_id id) s = (set_last_insert_id id s, none)
  apply (active now) s = (update_last_active now s, none)

  -- The session behind some calls, whatever errors they return.
  unfoldable pub run : List (Op V) → Session C V → Session C V
  run [] s = s
  run (op ∷ ops) s = run ops (apply op s).0

module _ {C V : Type 0} (open_tx : C → Bool) (exec : Command → C → C × Bool) where
  -- The flag of a session that has a connection is the server's state.
  abbrev pub Agrees : Session C V → Type 0
  Agrees s = IsOpen open_tx s.pg_conn s.in_transaction

  -- A transaction that is open at the server has its flag.
  abbrev pub Covers : Session C V → Type 0
  Covers s = IsCovered open_tx s.pg_conn s.in_transaction

  -- One of the calls could not end the transaction.
  unfoldable pub LosesOne : List (Op V) → Session C V → Type 0
  LosesOne [] s = ⊥
  LosesOne (op ∷ ops) s = IsLost (apply exec op s).1 ⊎ LosesOne ops (apply exec op s).0

  pub Agrees-Covers : (s : Session C V) → Agrees s → Covers s
  Agrees-Covers s h = go s.in_transaction h
    where
      go : (flag : Bool) → IsOpen open_tx s.pg_conn flag → IsCovered open_tx s.pg_conn flag
      go true h = tt
      go false h = h

  -- What a call leaves: the flag covers the transaction, and agrees with it where it did and the
  -- transaction could be ended.
  record Kept (s : Session C V) (r : Session C V × Option SessionError) : Type 0 where
    covers : Covers s → Covers r.0
    agrees : Agrees s → IsLost r.1 ⊎ Agrees r.0

  -- What a command leaves, whether or not it fails.
  send-Kept :
      (k : Command) (e : SessionError) (flag : Bool) (c : C) (s : Session C V)
      → ((exec k c).1 ≡ false → open_tx (exec k c).0 ≡ flag)
      → ((exec k c).1 ≡ true → Kept s (record s { pg_conn = some (exec k c).0 }, some e))
      → Kept s (send exec k e flag c s)
  send-Kept k e flag c s opens fails = elim (Bool-cases (exec k c).1) [
    | inl failed ↦ rw failed (fails failed)
    | inr works ↦
        let after : Session C V = record s { pg_conn = some (exec k c).0; in_transaction = flag } in
        rw works (record {
          covers = λ h. Agrees-Covers after (opens works);
          agrees = λ h. inr (opens works);
        })
  ]

  -- A command that ends the transaction of a session that has one.
  end-Kept :
      (k : Command) (e : SessionError) (c : C) (s : Session C V)
      → s.in_transaction ≡ true
      → ((exec k c).1 ≡ false → open_tx (exec k c).0 ≡ false)
      → IsLost (some e)
      → Kept s (send exec k e false c s)
  end-Kept k e c s inside ends lost =
      send-Kept k e false c s ends
        (λ failed. record { covers = λ h. rw inside tt; agrees = λ h. inl lost })

  begin-Kept :
      (c : C) (s : Session C V)
      → IsServer open_tx exec
      → s.pg_conn ≡ some c
      → Kept s (send exec begin_tx begin_failed true c s)
  begin-Kept c s server own = send-Kept begin_tx begin_failed true c s (server.begins c) (λ failed.
      record {
        covers = λ h.
            covered s.in_transaction failed
              (subst (λ t. IsCovered open_tx t s.in_transaction) own h);
        agrees =
            λ h. inr (server.stays c failed ∙ subst (λ t. IsOpen open_tx t s.in_transaction) own h);
      })
    where
      covered :
          (flag : Bool)
          → (exec begin_tx c).1 ≡ true
          → IsCovered open_tx (some c) flag
          → IsCovered open_tx (some (exec begin_tx c).0) flag
      covered true failed h = tt
      covered false failed h = server.stays c failed ∙ h

  unmoved : (s : Session C V) (e : Option SessionError) → Kept s (s, e)
  unmoved s e = record { covers = λ h. h; agrees = λ h. inr h }

  if-Kept :
      (b : Bool) (s : Session C V) (p q : Session C V × Option SessionError)
      → (b ≡ true → Kept s p)
      → (b ≡ false → Kept s q)
      → Kept s (if b then p else q)
  if-Kept true s p q h k = h refl
  if-Kept false s p q h k = k refl

  end_or_refuse-Kept :
      (k : Command) (e : SessionError) (conn : Option C) (s : Session C V)
      → s.in_transaction ≡ true
      → ((c : C) → (exec k c).1 ≡ false → open_tx (exec k c).0 ≡ false)
      → IsLost (some e)
      → Kept s (send_or_refuse exec k e false conn s)
  end_or_refuse-Kept k e none s inside ends lost = unmoved s (some no_connection)
  end_or_refuse-Kept k e (some c) s inside ends lost = end-Kept k e c s inside (ends c) lost

  begin_or_refuse-Kept :
      (conn : Option C) (s : Session C V)
      → IsServer open_tx exec
      → s.pg_conn ≡ conn
      → Kept s (send_or_refuse exec begin_tx begin_failed true conn s)
  begin_or_refuse-Kept none s server own = unmoved s (some no_connection)
  begin_or_refuse-Kept (some c) s server own = begin-Kept c s server own

  -- `SetAutocommit` behind the write of the mode.
  switch_mode-Kept :
      (b : Bool) (conn : Option C) (s : Session C V)
      → IsServer open_tx exec
      → s.pg_conn ≡ conn
      → Kept s (switch_mode exec b conn s)
  switch_mode-Kept b none s server own = unmoved s none
  switch_mode-Kept true (some c) s server own =
      if-Kept s.in_transaction s _ _
        (λ e. end-Kept commit_tx commit_failed c s e (server.commits c) lost_commit)
        (λ e. unmoved s none)
  switch_mode-Kept false (some c) s server own =
      if-Kept s.in_transaction s _ _ (λ e. unmoved s none) (λ e. begin-Kept c s server own)

  apply-Kept : (op : Op V) (s : Session C V) → IsServer open_tx exec → Kept s (apply exec op s)
  unfolding apply begin_transaction commit_transaction rollback_transaction set_autocommit
  apply-Kept begin s server =
      if-Kept s.in_transaction s _ _ (λ e. unmoved s none)
        (λ e. begin_or_refuse-Kept s.pg_conn s server refl)
  apply-Kept commit s server =
      if-Kept s.in_transaction s _ _
        (λ e. end_or_refuse-Kept commit_tx commit_failed s.pg_conn s e server.commits lost_commit)
        (λ e. unmoved s none)
  apply-Kept rollback s server =
      if-Kept s.in_transaction s _ _
        (λ e.
          end_or_refuse-Kept rollback_tx rollback_failed s.pg_conn s e server.rolls_back
            lost_rollback)
        (λ e. unmoved s none)
  apply-Kept (autocommit b) s server =
      if-Kept (if b then s.autocommit else not s.autocommit) s _ _ (λ e. unmoved s none)
        (λ e.
          let k = switch_mode-Kept b s.pg_conn (record s { autocommit = b }) server refl in
          record { covers = k.covers; agrees = k.agrees })
  apply-Kept (session_var key value) s server = record { covers = λ h. h; agrees = λ h. inr h }
  apply-Kept (user_var key value) s server = record { covers = λ h. h; agrees = λ h. inr h }
  apply-Kept (insert_id id) s server = record { covers = λ h. h; agrees = λ h. inr h }
  apply-Kept (active now) s server = record { covers = λ h. h; agrees = λ h. inr h }

  pub apply-Covers :
      (op : Op V) (s : Session C V) → IsServer open_tx exec → Covers s → Covers (apply exec op s).0
  apply-Covers op s server h = let k = apply-Kept op s server in k.covers h

  pub apply-Agrees :
      (op : Op V) (s : Session C V)
      → IsServer open_tx exec
      → Agrees s
      → IsLost (apply exec op s).1 ⊎ Agrees (apply exec op s).0
  apply-Agrees op s server h = let k = apply-Kept op s server in k.agrees h

  run-Covers :
      (ops : List (Op V)) (s : Session C V)
      → IsServer open_tx exec
      → Covers s
      → Covers (run exec ops s)
  unfolding run
  run-Covers [] s server h = h
  run-Covers (op ∷ ops) s server h =
      run-Covers ops (apply exec op s).0 server (apply-Covers op s server h)

  run-LosesOne :
      (ops : List (Op V)) (s : Session C V)
      → IsServer open_tx exec
      → Agrees s
      → LosesOne ops s ⊎ Agrees (run exec ops s)
  unfolding run LosesOne
  run-LosesOne [] s server h = inr h
  run-LosesOne (op ∷ ops) s server h = elim (apply-Agrees op s server h) [
    | inl lost ↦ inl (inl lost)
    | inr kept ↦ elim (run-LosesOne ops (apply exec op s).0 server kept) [
      | inl lost ↦ inl (inr lost)
      | inr done ↦ inr done
    ]
  ]

  -- On a server on which a command that succeeds opens or ends the transaction, and a BEGIN that
  -- fails leaves it, where the session's flag is the state of the transaction of its connection:
  -- behind any calls, whatever errors they return, a session whose flag is down has no transaction
  -- open; and the flag is the state of the transaction again, unless one of the calls returned that
  -- a COMMIT or a ROLLBACK failed.
  pub run-Agrees :
      (ops : List (Op V)) (s : Session C V)
      → IsServer open_tx exec
      → Agrees s
      → Covers (run exec ops s) × (LosesOne ops s ⊎ Agrees (run exec ops s))
  run-Agrees ops s server h =
      (run-Covers ops s server (Agrees-Covers s h), run-LosesOne ops s server h)
