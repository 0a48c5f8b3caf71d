-- ===== src/Pool/Tests.antt =====
-- Two sessions with connections that are numbers.
use my_proxy.Base.{ℕ, ◌≡◌, ◌≢◌, refl, true, false, [], ◌∷◌, List, none, some, codes, arith}
use my_proxy.Base.Dict.{lookup}
use my_proxy.Base.Eq.{equal, equal_iff, bytes_eq}
use my_proxy.Pool.{Mode, Driver, Answer, Pool, Call, acquire_for_session, run_pool}
use my_proxy.Pool.Affinity.{acquire_for_session-run_pool}

abbrev another : Driver ℕ
another = record { parsed = true; connected = some 8; timezone_set = true; acquired = none }

abbrev with_seven : Pool ℕ
with_seven = record {
  mode = Mode.hybrid;
  session_conns = (codes "s1", 7) ∷ [];
  taken = [];
  closed = [];
}

abbrev calls : List (Call ℕ)
calls = Call.acquire another (codes "s2") ∷ Call.release (codes "s2") ∷ []

two_ne_one : codes "s2" ≢ codes "s1"
unfolding equal
two_ne_one e =
    let same : false ≡ true = (equal_iff (codes "s2") (codes "s1")).1 e in absurd (ground arith)

acquire_for_session-run_pool_example :
    acquire_for_session another (codes "s1") (run_pool calls with_seven)
    ≡ (run_pool calls with_seven, Answer.got 7)
unfolding lookup equal
acquire_for_session-run_pool_example =
    acquire_for_session-run_pool another (codes "s1") 7 calls with_seven refl refl
      (tt, (two_ne_one, tt))
