-- ===== src/Replication/Streamer/Retries.antt =====
-- The end of `streamLoop` where no attempt gives it a connection.
use my_proxy.Base.{
  ℕ, ◌+◌, ◌≤◌, ◌<◌, ◌≡◌, refl, Bool, true, false, ◌&&◌, ◌||◌, List, [], ◌∷◌, some, All, length, ltb,
  arith,
}
use my_proxy.Replication.Streamer.Backoff.{
  Attempt, missing, closed, Reconnect, Round, Ended, Waits, first_wait, next_wait, after_attempt,
  after_stream, at_start, too_many, stream_loop,
}

-- An attempt that gives no connection that can be used.
pub data IsFailed : Attempt → Type 0 where
  is_missing : IsFailed missing
  is_closed : IsFailed closed

-- How the loop ends, and that its waits do not pass the count.
pub EndsWithin : ℕ → ℕ → Waits → Type 0
EndsWithin retries most w = (e : Ended) × (w.1 ≡ some e) × (retries + length w.0 ≤ most)

after_stream-EndsWithin :
    (stops enabled over waiting : Bool) (wait retries most : ℕ) (next : Waits)
    → retries ≤ most
    → (over ≡ false → (retries < most) × EndsWithin (retries + 1) most next)
    → EndsWithin retries most (after_stream stops enabled over waiting wait next)
unfolding EndsWithin
after_stream-EndsWithin true enabled over waiting wait retries most next h k =
    (Ended.stopped, refl, omega arith)
after_stream-EndsWithin false false over waiting wait retries most next h k =
    (Ended.disabled, refl, omega arith)
after_stream-EndsWithin false true true waiting wait retries most next h k =
    (Ended.too_many_retries, refl, omega arith)
after_stream-EndsWithin false true false true wait retries most next h k =
    let (lt, rest) = k refl in (Ended.stopped, refl, omega arith)
after_stream-EndsWithin false true false false wait retries most next h k =
    let (lt, (e, ended, few)) = k refl in (e, ended, omega arith)

at_start-EndsWithin :
    (cancelled has_conn : Bool) (retries most : ℕ) (streamed : Waits)
    → retries ≤ most
    → EndsWithin retries most streamed
    → EndsWithin retries most (at_start cancelled has_conn streamed)
unfolding EndsWithin
at_start-EndsWithin true has_conn retries most streamed h k = (Ended.stopped, refl, omega arith)
at_start-EndsWithin false false retries most streamed h k = (Ended.panicked, refl, omega arith)
at_start-EndsWithin false true retries most streamed h k = k

after_attempt-EndsWithin :
    (a : Attempt) (retries most : ℕ) (fresh again lost : Waits)
    → IsFailed a
    → EndsWithin retries most again
    → EndsWithin retries most lost
    → EndsWithin retries most (after_attempt a fresh again lost)
after_attempt-EndsWithin _ retries most fresh again lost is_missing a l = l
after_attempt-EndsWithin _ retries most fresh again lost is_closed a l = a

not_too_many : (most n : ℕ) → 0 < most → (ltb 0 most && ltb most (n + 1)) ≡ false → n < most
not_too_many most n h e = ground arith

-- With a positive number of retries, where no attempt gives a connection that can be used, the loop
-- ends within one round more than the retries that are left, by a panic or not, and waits at most
-- once for each of these retries.
pub stream_loop-EndsWithin :
    (c : Reconnect) (has_conn : Bool) (retries wait : ℕ) (rounds : List Round)
    → 0 < c.max_retries
    → retries ≤ c.max_retries
    → All (λ (r : Round). IsFailed r.attempt) rounds
    → c.max_retries < retries + length rounds
    → EndsWithin retries c.max_retries (stream_loop c has_conn retries wait rounds)
unfolding stream_loop
stream_loop-EndsWithin c has_conn retries wait [] some_retries h never enough = absurd (omega arith)
stream_loop-EndsWithin c has_conn retries wait (r ∷ rounds) some_retries h (fails, never) enough =
    at_start-EndsWithin r.cancelled_before has_conn retries c.max_retries _ h (
      after_stream-EndsWithin (r.finished || r.cancelled_after) c.enabled (too_many c retries)
        r.cancelled_waiting wait retries c.max_retries _ h
        (λ few.
          let lt : retries < c.max_retries = not_too_many c.max_retries retries some_retries few in
          let next = next_wait c wait in
          (
            lt,
            after_attempt-EndsWithin r.attempt (retries + 1) c.max_retries
                (stream_loop c true 0 (first_wait c) rounds)
                (stream_loop c true (retries + 1) next rounds)
                (stream_loop c false (retries + 1) next rounds) fails
                (stream_loop-EndsWithin c true (retries + 1) next rounds some_retries (omega arith)
                  never (omega arith))
                (stream_loop-EndsWithin c false (retries + 1) next rounds some_retries (omega arith)
                  never (omega arith)),
          )))
