-- ===== src/Session/Tests.antt =====
-- The session on a server of one flag, and on one whose COMMIT fails.
use my_proxy.Base.{ℕ, ◌≡◌, refl, ◌⊎◌, Bool, true, false, not, List, [], ◌∷◌, some, codes, arith}
use my_proxy.Session.{
  Command, begin_tx, commit_tx, rollback_tx, commit_failed, Session, new_session,
}
use my_proxy.Session.Manager.{
  Call, add, remove, registered, run_calls, get_session, get_session-run_calls,
}
use my_proxy.Session.Transactions.{
  IsServer, Op, begin, commit, rollback, autocommit, Agrees, Covers, LosesOne, apply, run,
  run-Agrees,
}
use my_proxy.Session.Stuck.{begins, manual, AllAccepted, run-stuck}

-- A connection is the state of its transaction; every command succeeds.
abbrev serve : Command → Bool → Bool × Bool
serve begin_tx c = (true, false)
serve commit_tx c = (false, false)
serve rollback_tx c = (false, false)

abbrev itself : Bool → Bool
itself b = b

absurd_failure : {A : Type 0} → false ≡ true → A
absurd_failure e = absurd (ground arith)

serve-IsServer : IsServer itself serve
serve-IsServer = record {
  begins = λ c h. refl;
  commits = λ c h. refl;
  rolls_back = λ c h. refl;
  stays = λ c e. absurd_failure e;
}

abbrev connected : Session Bool ℕ
connected = record (new_session (codes "s1") 0 1 (codes "app") (codes "shop") (codes "::1")) {
  pg_conn = some false;
}

abbrev ops : List (Op ℕ)
ops = autocommit false ∷ commit ∷ begin ∷ rollback ∷ []

run-Agrees_example :
    Covers itself serve (run serve ops connected)
    × (LosesOne itself serve ops connected ⊎ Agrees itself serve (run serve ops connected))
run-Agrees_example = run-Agrees itself serve ops connected serve-IsServer refl

-- A session in a transaction, and a server whose COMMIT ends the transaction and fails.
abbrev busy : Session Bool ℕ
busy = record connected { in_transaction = true; pg_conn = some true }

abbrev deferred : Command → Bool → Bool × Bool
deferred begin_tx c = (true, false)
deferred commit_tx c = (false, true)
deferred rollback_tx c = (false, false)

abbrev later : List (Op ℕ)
later = begin ∷ autocommit false ∷ begin ∷ []

run-stuck_example :
    ((apply deferred commit busy).1 ≡ some commit_failed)
    × AllAccepted deferred later (apply deferred commit busy).0
    × ((run deferred later (apply deferred commit busy).0).pg_conn ≡ some false)
    × ¬ Agrees itself deferred (run deferred later (apply deferred commit busy).0)
run-stuck_example =
    run-stuck deferred itself true later busy refl refl refl refl (begins, (manual, (begins, tt)))

abbrev calls : List (Call Bool ℕ)
calls = remove (codes "s2") ∷ add connected ∷ []

get_session-run_calls_example :
    get_session (codes "s1") (run_calls serve not calls) ≡ registered (codes "s1") calls
get_session-run_calls_example = get_session-run_calls serve not (codes "s1") calls
