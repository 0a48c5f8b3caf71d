-- ===== src/Session/Stuck.antt =====
-- A COMMIT that fails at a server that ends the transaction with it, as PostgreSQL does where a
-- deferred constraint fails.
use mathlib.Core.Path.{subst}
use my_proxy.Base.{
  ℕ, ◌≡◌, refl, sym, ap, ◌∙◌, Bool, true, false, not, List, [], ◌∷◌, Option, none, some, All, Bytes,
  arith, if◌then◌else◌,
}
use my_proxy.Session.{
  Command, commit_tx, SessionError, commit_failed, Session, send_or_refuse, switch_mode,
  begin_transaction, commit_transaction, set_autocommit,
}
use my_proxy.Session.Transactions.{
  Op, begin, autocommit, session_var, user_var, insert_id, active, commit, apply, run, IsOpen,
  Agrees,
}

absurd_bool : {A : Type 0} → true ≡ false → A
absurd_bool e = absurd (ground arith)

-- A call that is not made to end a transaction.
pub data IsInside {V : Type 0} : Op V → Type 0 where
  begins : IsInside begin
  manual : IsInside (autocommit false)
  sets_var : (key : Bytes) (value : V) → IsInside (session_var key value)
  sets_user_var : (key : Bytes) (value : V) → IsInside (user_var key value)
  sets_id : (id : ℕ) → IsInside (insert_id id)
  moves : (now : ℕ) → IsInside (active now)

module _ {C V : Type 0} (exec : Command → C → C × Bool) where
  -- The session as it stands behind the failure.
  record Stuck (c : C) (s : Session C V) : Type 0 where
    own : s.pg_conn ≡ some c
    inside : s.in_transaction ≡ true

  -- A test with which either call goes, with the state and no error.
  if-Stuck :
      (b : Bool) (c : C) (p q : Session C V × Option SessionError)
      → (b ≡ true → Stuck c p.0 × (p.1 ≡ none))
      → (b ≡ false → Stuck c q.0 × (q.1 ≡ none))
      → Stuck c (if b then p else q).0 × ((if b then p else q).1 ≡ none)
  if-Stuck true c p q h k = h refl
  if-Stuck false c p q h k = k refl

  switch_mode-Stuck :
      (conn : Option C) (c : C) (s : Session C V)
      → Stuck c s
      → Stuck c (switch_mode exec false conn s).0 × ((switch_mode exec false conn s).1 ≡ none)
  switch_mode-Stuck none c s k = (k, refl)
  switch_mode-Stuck (some conn) c s k =
      if-Stuck s.in_transaction c _ _ (λ e. (k, refl)) (λ e. absurd_bool (sym k.inside ∙ e))

  apply-Stuck :
      (op : Op V) (c : C) (s : Session C V)
      → IsInside op
      → Stuck c s
      → Stuck c (apply exec op s).0 × ((apply exec op s).1 ≡ none)
  unfolding apply begin_transaction set_autocommit
  apply-Stuck _ c s begins k =
      if-Stuck s.in_transaction c _ _ (λ e. (k, refl)) (λ e. absurd_bool (sym k.inside ∙ e))
  apply-Stuck _ c s manual k =
      if-Stuck (not s.autocommit) c _ _ (λ e. (k, refl))
        (λ e.
          switch_mode-Stuck s.pg_conn c (record s { autocommit = false })
            (record { own = k.own; inside = k.inside }))
  apply-Stuck _ c s (sets_var key value) k = (record { own = k.own; inside = k.inside }, refl)
  apply-Stuck _ c s (sets_user_var key value) k = (record { own = k.own; inside = k.inside }, refl)
  apply-Stuck _ c s (sets_id id) k = (record { own = k.own; inside = k.inside }, refl)
  apply-Stuck _ c s (moves now) k = (record { own = k.own; inside = k.inside }, refl)

  -- No call of a list returns an error.
  unfoldable pub AllAccepted : List (Op V) → Session C V → Type 0
  AllAccepted [] s = Unit
  AllAccepted (op ∷ ops) s = ((apply exec op s).1 ≡ none) × AllAccepted ops (apply exec op s).0

  run-Stuck :
      (ops : List (Op V)) (c : C) (s : Session C V)
      → All IsInside ops
      → Stuck c s
      → AllAccepted ops s × Stuck c (run exec ops s)
  unfolding run AllAccepted
  run-Stuck [] c s h k = (tt, k)
  run-Stuck (op ∷ ops) c s (one, h) k =
      let (next, accepted) = apply-Stuck op c s one k in
      let (all, last) = run-Stuck ops c (apply exec op s).0 h next in ((accepted, all), last)

  apply-commit_failed :
      (c : C) (s : Session C V)
      → s.pg_conn ≡ some c
      → s.in_transaction ≡ true
      → (exec commit_tx c).1 ≡ true
      → apply exec commit s ≡ (record s { pg_conn = some (exec commit_tx c).0 }, some commit_failed)
  unfolding apply commit_transaction
  apply-commit_failed c s own inside fails =
      ap
        (λ b.
          if b then send_or_refuse exec commit_tx commit_failed false s.pg_conn s else (s, none))
        inside
      ∙ ap (λ t. send_or_refuse exec commit_tx commit_failed false t s) own
      ∙ simp (fails)

  -- A COMMIT in a transaction, which fails and ends the transaction at the server: the session
  -- returns the error, and behind it every BEGIN, every change to manual commits and every change
  -- of a variable, in any order, is accepted without an error while nothing is sent to the server,
  -- which has no transaction: the flag still says that there is one.
  pub run-stuck :
      (open_tx : C → Bool) (c : C) (ops : List (Op V)) (s : Session C V)
      → s.pg_conn ≡ some c
      → s.in_transaction ≡ true
      → (exec commit_tx c).1 ≡ true
      → open_tx (exec commit_tx c).0 ≡ false
      → All IsInside ops
      → ((apply exec commit s).1 ≡ some commit_failed)
        × AllAccepted ops (apply exec commit s).0
        × ((run exec ops (apply exec commit s).0).pg_conn ≡ some (exec commit_tx c).0)
        × ¬ Agrees open_tx exec (run exec ops (apply exec commit s).0)
  run-stuck open_tx c ops s own inside fails ended h =
      let failed : apply exec commit s
          ≡ (record s { pg_conn = some (exec commit_tx c).0 }, some commit_failed) =
        apply-commit_failed c s own inside fails in
      let before : Stuck (exec commit_tx c).0 (apply exec commit s).0 =
        rw failed (record { own = refl; inside = inside }) in
      let (accepted, k) = run-Stuck ops (exec commit_tx c).0 (apply exec commit s).0 h before in
      (
        ap (λ r. r.1) failed,
        accepted,
        k.own,
        λ agrees. absurd_bool (
            sym (
              subst (λ flag. open_tx (exec commit_tx c).0 ≡ flag) k.inside
                (subst (λ t. IsOpen open_tx t (run exec ops (apply exec commit s).0).in_transaction)
                  k.own agrees))
            ∙ ended),
      )
