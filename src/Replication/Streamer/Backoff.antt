-- ===== src/Replication/Streamer/Backoff.antt =====
-- pkg/replication/pg_streamer.go: `streamLoop`, over the outcomes of its calls. Times are the low
-- 64 bits of an int64; a time of the configuration that is not positive is 0.
use my_proxy.Base.{
  ℕ, ◌+◌, ◌*◌, ◌%◌, ◌^◌, ◌≤◌, ◌<◌, Bool, true, false, ◌&&◌, ◌||◌, List, [], ◌∷◌, Option, none, some,
  All, ltb, ◌==◌, if◌then◌else◌, arith,
}

pub record Reconnect : Type 0 where
  pub enabled : Bool
  pub max_retries : ℕ
  pub initial_wait : ℕ
  pub max_wait : ℕ

-- What an attempt to connect again leaves: a connection; none, where the server was not reached; or
-- one that was closed behind an error of the slot or the publication.
pub data Attempt : Type 0 where
  connected missing closed : Attempt

-- A round of the loop: whether the context is cancelled at its start, whether the stream ends
-- without an error, whether the context is cancelled then or while the loop waits, and what the
-- attempt to connect leaves.
pub record Round : Type 0 where
  pub cancelled_before : Bool
  pub finished : Bool
  pub cancelled_after : Bool
  pub cancelled_waiting : Bool
  pub attempt : Attempt

pub data Ended : Type 0 where
  stopped disabled too_many_retries panicked : Ended

abbrev pub first_wait : Reconnect → ℕ
first_wait c = if c.initial_wait == 0 then 1000000000 else c.initial_wait

abbrev pub longest_wait : Reconnect → ℕ
longest_wait c = if c.max_wait == 0 then 30000000000 else c.max_wait

-- `waitTime * 2`, and the cap; a time with the top bit is negative.
unfoldable pub next_wait : Reconnect → ℕ → ℕ
next_wait c wait =
    let doubled = wait * 2 % 2 ^ 64 in
    if ltb doubled (2 ^ 63) && ltb (longest_wait c) doubled then longest_wait c else doubled

-- The waits, and how the loop ends; `none` where it still runs behind the rounds.
abbrev pub Waits : Type 0
Waits = List ℕ × Option Ended

abbrev pub after_attempt : Attempt → Waits → Waits → Waits → Waits
after_attempt connected fresh again lost = fresh
after_attempt closed fresh again lost = again
after_attempt missing fresh again lost = lost

-- A round's returns behind `doStream`, in their order: the end of the stream or the context, no
-- reconnecting, too many retries, the context while the loop waits; then the loop goes on by what
-- the attempt leaves.
abbrev pub after_stream : Bool → Bool → Bool → Bool → ℕ → Waits → Waits
after_stream true enabled over waiting wait next = ([], some Ended.stopped)
after_stream false false over waiting wait next = ([], some Ended.disabled)
after_stream false true true waiting wait next = ([], some Ended.too_many_retries)
after_stream false true false true wait next = (wait ∷ [], some Ended.stopped)
after_stream false true false false wait next = (wait ∷ next.0, next.1)

-- The context at the start, and `doStream`, which hands the connection to the library without a
-- test for nil: the library reads its fields, which is a panic.
abbrev pub at_start : Bool → Bool → Waits → Waits
at_start true has_conn streamed = ([], some Ended.stopped)
at_start false false streamed = ([], some Ended.panicked)
at_start false true streamed = streamed

abbrev pub too_many : Reconnect → ℕ → Bool
too_many c retries = ltb 0 c.max_retries && ltb c.max_retries (retries + 1)

-- `has_conn` is false where the connection is nil.
unfoldable pub stream_loop : Reconnect → Bool → ℕ → ℕ → List Round → Waits
stream_loop c has_conn retries wait [] = ([], none)
stream_loop c has_conn retries wait (r ∷ rounds) =
    let fresh = stream_loop c true 0 (first_wait c) rounds in
    let again = stream_loop c true (retries + 1) (next_wait c wait) rounds in
    let lost = stream_loop c false (retries + 1) (next_wait c wait) rounds in
    at_start r.cancelled_before has_conn (
      after_stream (r.finished || r.cancelled_after) c.enabled (too_many c retries)
        r.cancelled_waiting wait (after_attempt r.attempt fresh again lost))

capped-le :
    (longest wait bound : ℕ)
    → wait < 2 ^ 62
    → longest ≤ bound
    → (if ltb (wait * 2 % 2 ^ 64) (2 ^ 63) && ltb longest (wait * 2 % 2 ^ 64)
        then longest
        else wait * 2 % 2 ^ 64)
      ≤ bound
capped-le longest wait bound small h = ground arith

module _ (P : ℕ → Type 0) where
  after_attempt-All :
      (a : Attempt) (fresh again lost : Waits)
      → All P fresh.0
      → All P again.0
      → All P lost.0
      → All P (after_attempt a fresh again lost).0
  after_attempt-All connected fresh again lost f a l = f
  after_attempt-All closed fresh again lost f a l = a
  after_attempt-All missing fresh again lost f a l = l

  after_stream-All :
      (stops enabled over waiting : Bool) (wait : ℕ) (next : Waits)
      → P wait
      → All P next.0
      → All P (after_stream stops enabled over waiting wait next).0
  after_stream-All true enabled over waiting wait next h n = tt
  after_stream-All false false over waiting wait next h n = tt
  after_stream-All false true true waiting wait next h n = tt
  after_stream-All false true false true wait next h n = (h, tt)
  after_stream-All false true false false wait next h n = (h, n)

  at_start-All :
      (cancelled has_conn : Bool) (streamed : Waits)
      → All P streamed.0
      → All P (at_start cancelled has_conn streamed).0
  at_start-All true has_conn streamed h = tt
  at_start-All false false streamed h = tt
  at_start-All false true streamed h = h

-- With times of the configuration below 2 ^ 62, whatever happens in the rounds: no wait of the loop
-- is longer than both the first and the longest wait of the configuration, or their defaults.
pub stream_loop-bounded :
    (c : Reconnect) (bound retries wait : ℕ) (has_conn : Bool) (rounds : List Round)
    → bound < 2 ^ 62
    → first_wait c ≤ bound
    → longest_wait c ≤ bound
    → wait ≤ bound
    → All (λ w. w ≤ bound) (stream_loop c has_conn retries wait rounds).0
unfolding stream_loop next_wait
stream_loop-bounded c bound retries wait has_conn [] small f l h = tt
stream_loop-bounded c bound retries wait has_conn (r ∷ rounds) small f l h =
    let capped = capped-le (longest_wait c) wait bound (omega arith) l in
    let next = next_wait c wait in
    at_start-All (λ w. w ≤ bound) r.cancelled_before has_conn _
      (after_stream-All (λ w. w ≤ bound) (r.finished || r.cancelled_after) c.enabled
        (too_many c retries) r.cancelled_waiting wait _ h
        (after_attempt-All (λ w. w ≤ bound) r.attempt (stream_loop c true 0 (first_wait c) rounds)
          (stream_loop c true (retries + 1) next rounds)
          (stream_loop c false (retries + 1) next rounds)
          (stream_loop-bounded c bound 0 (first_wait c) true rounds small f l f)
          (stream_loop-bounded c bound (retries + 1) next true rounds small f l capped)
          (stream_loop-bounded c bound (retries + 1) next false rounds small f l capped)))
