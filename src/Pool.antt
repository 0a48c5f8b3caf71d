-- ===== src/Pool.antt =====
-- internal/pool/pool.go: connections by session. The calls of the driver give their outcomes as
-- arguments; the pool of the driver is what it hands out.
pub mod Affinity
mod Tests
use my_proxy.Base.{
  Bool, true, false, List, [], ◌∷◌, Option, none, some, Bytes, ℕ, length, map, ◌++◌, if◌then◌else◌,
}
use my_proxy.Base.Dict.{Dict, lookup, insert, delete}
use my_proxy.Base.Eq.{bytes_eq}

pub data Mode : Type 0 where
  session_affinity pooled hybrid : Mode
  other_mode : Bytes → Mode

pub data PoolError : Type 0 where
  parse_failed connect_failed timezone_failed acquire_failed : PoolError

pub data Answer (Conn : Type 0) : Type 0 where
  got : Conn → Answer Conn
  failed : PoolError → Answer Conn

-- What the driver answers: whether the text of the connection is parsed, the new connection,
-- whether its time zone is set, and the connection of the driver's pool.
pub record Driver (Conn : Type 0) : Type 0 where
  pub parsed : Bool
  pub connected : Option Conn
  pub timezone_set : Bool
  pub acquired : Option Conn

-- `taken` are the connections that the driver's pool has handed out, `closed` those closed.
pub record Pool (Conn : Type 0) : Type 0 where
  pub mode : Mode
  pub session_conns : Dict Bytes Conn
  pub taken : List Conn
  pub closed : List Conn

pub data Call (Conn : Type 0) : Type 0 where
  acquire : Driver Conn → Bytes → Call Conn
  release : Bytes → Call Conn

abbrev pub is_dedicated : Mode → Bool
is_dedicated Mode.session_affinity = true
is_dedicated Mode.hybrid = true
is_dedicated _ = false

module _ {Conn : Type 0} where
  -- Behind the connect; a connection whose time zone is not set is closed.
  abbrev pub dedicated : Bool → Option Conn → Bytes → Pool Conn → Pool Conn × Answer Conn
  dedicated zone none id p = (p, Answer.failed PoolError.connect_failed)
  dedicated true (some c) id p =
      (record p { session_conns = insert id c p.session_conns }, Answer.got c)
  dedicated false (some c) id p =
      (record p { closed = c ∷ p.closed }, Answer.failed PoolError.timezone_failed)

  abbrev from_pool : Option Conn → Pool Conn → Pool Conn × Answer Conn
  from_pool none p = (p, Answer.failed PoolError.acquire_failed)
  from_pool (some c) p = (record p { taken = c ∷ p.taken }, Answer.got c)

  abbrev pub known_or_new : Driver Conn → Bytes → Pool Conn → Option Conn → Pool Conn × Answer Conn
  known_or_new d id p (some c) = (p, Answer.got c)
  known_or_new d id p none =
      if d.parsed
      then dedicated d.timezone_set d.connected id p
      else (p, Answer.failed PoolError.parse_failed)

  unfoldable pub acquire_for_session : Driver Conn → Bytes → Pool Conn → Pool Conn × Answer Conn
  acquire_for_session d id p =
      if is_dedicated p.mode
      then known_or_new d id p (lookup id p.session_conns)
      else from_pool d.acquired p

  abbrev pub close_known : Bytes → Pool Conn → Option Conn → Pool Conn
  close_known id p none = p
  close_known id p (some c) = record p {
    session_conns = delete id p.session_conns;
    closed = c ∷ p.closed;
  }

  -- The error of the driver's `Close` is passed on, and changes nothing.
  unfoldable pub release_for_session : Bytes → Pool Conn → Pool Conn
  release_for_session id p =
      if is_dedicated p.mode then close_known id p (lookup id p.session_conns) else p

  -- `Close`, without the one of the driver's pool.
  unfoldable pub close_pool : Pool Conn → Pool Conn
  close_pool p = record p {
    session_conns = [];
    closed = map (λ (entry : Bytes × Conn). entry.1) p.session_conns ++ p.closed;
  }

  abbrev pub get_session_connection_count : Pool Conn → ℕ
  get_session_connection_count p = length p.session_conns

  unfoldable pub run_pool : List (Call Conn) → Pool Conn → Pool Conn
  run_pool [] p = p
  run_pool (Call.acquire d id ∷ calls) p = run_pool calls (acquire_for_session d id p).0
  run_pool (Call.release id ∷ calls) p = run_pool calls (release_for_session id p)
