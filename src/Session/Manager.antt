-- ===== src/Session/Manager.antt =====
-- `Manager`: the sessions by their identifiers. The map holds each session's state; a call of
-- a session's own methods is not a call of the manager.
use my_proxy.Base.{
  ℕ, ◌≡◌, refl, sym, ap, ◌∙◌, Bool, List, [], ◌∷◌, Option, none, some, Bytes, length, if◌then◌else◌,
  Bool-cases, inl, inr,
}
use my_proxy.Base.Dict.{Dict, lookup, insert, delete, lookup-insert, lookup-delete}
use my_proxy.Base.Eq.{equal, equal_iff, bytes_eq}
use my_proxy.Session.{Command, SessionError, Session, close_session}

pub record Manager (C V : Type 0) : Type 0 where
  pub sessions : Dict Bytes (Session C V)

module _ {C V : Type 0} where
  abbrev pub new_manager : Manager C V
  new_manager = record { sessions = [] }

  unfoldable pub add_session : Session C V → Manager C V → Manager C V
  add_session s m = record { sessions = insert s.id s m.sessions }

  unfoldable pub get_session : Bytes → Manager C V → Option (Session C V)
  get_session id m = lookup id m.sessions

  -- Which order a range over the map has is not known; here it is the list's.
  pub get_all_sessions : Manager C V → List (Session C V)
  get_all_sessions m = values m.sessions
    where
      values : Dict Bytes (Session C V) → List (Session C V)
      values [] = []
      values ((id, s) ∷ rest) = s ∷ values rest

  abbrev pub count : Manager C V → ℕ
  count m = length m.sessions

pub data Call (C V : Type 0) : Type 0 where
  add : Session C V → Call C V
  remove : Bytes → Call C V

-- What the last call that names an identifier says of it.
pub registered : {C V : Type 0} → Bytes → List (Call C V) → Option (Session C V)
registered id [] = none
registered id (add s ∷ calls) = if equal s.id id then some s else registered id calls
registered id (remove other ∷ calls) = if equal other id then none else registered id calls

-- `RemoveSession`, with what `Close` makes of the session that was there.
module _ {C V : Type 0} (exec : Command → C → C × Bool) (closing : C → Bool) where
  abbrev pub closed : Option (Session C V) → Option (Session C V × (Option C × Option SessionError))
  closed none = none
  closed (some s) = some (close_session exec closing s)

  abbrev pub remove_found : Bytes → Option (Session C V) → Manager C V → Manager C V
  remove_found id none m = m
  remove_found id (some s) m = record { sessions = delete id m.sessions }

  unfoldable pub remove_session :
      Bytes → Manager C V → Manager C V × Option (Session C V × (Option C × Option SessionError))
  remove_session id m = (remove_found id (lookup id m.sessions) m, closed (lookup id m.sessions))

  abbrev pub perform : Call C V → Manager C V → Manager C V
  perform (add s) m = add_session s m
  perform (remove id) m = (remove_session id m).0

  -- The manager behind some calls, of which the last stands first.
  pub run_calls : List (Call C V) → Manager C V
  run_calls [] = new_manager
  run_calls (call ∷ calls) = perform call (run_calls calls)

  get_session-remove_found :
      (id other : Bytes) (found : Option (Session C V)) (m : Manager C V)
      → lookup other m.sessions ≡ found
      → get_session id (remove_found other found m)
        ≡ (if equal other id then none else get_session id m)
  unfolding get_session
  get_session-remove_found id other none m e = elim (Bool-cases (equal other id)) [
    | inl same ↦ rw same (ap (λ k. lookup k m.sessions) (sym ((equal_iff other id).0 same)) ∙ e)
    | inr apart ↦ rw apart refl
  ]
  get_session-remove_found id other (some s) m e = lookup-delete other id m.sessions

  -- Behind any calls that add and remove sessions, the manager finds under an identifier what the
  -- last call that names it left: the session that was added, or none where it was removed or
  -- never named.
  pub get_session-run_calls :
      (id : Bytes) (calls : List (Call C V))
      → get_session id (run_calls calls) ≡ registered id calls
  unfolding run_calls registered remove_session add_session get_session lookup
  get_session-run_calls id [] = refl
  get_session-run_calls id (add s ∷ calls) =
      lookup-insert s.id id s (run_calls calls).sessions
      ∙ ap (λ t. if equal s.id id then some s else t) (get_session-run_calls id calls)
  get_session-run_calls id (remove other ∷ calls) =
      get_session-remove_found id other _ (run_calls calls) refl
      ∙ ap (λ t. if equal other id then none else t) (get_session-run_calls id calls)
