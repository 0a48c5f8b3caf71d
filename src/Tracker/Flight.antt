-- ===== src/Tracker/Flight.antt =====
-- A request is in flight from its start to its end.
use my_proxy.Base.{
  ℕ, ◌+◌, ◌%◌, ◌^◌, ◌<◌, ◌≤◌, ◌≡◌, ◌≢◌, refl, ap, ◌∙◌, List, [], ◌∷◌, none, some, Bytes, All,
  length, arith,
}
use my_proxy.Base.Dict.{
  lookup, insert, lookup-insert_self, lookup-insert_ne, lookup-delete_self, lookup-delete_ne,
}
use my_proxy.Base.Eq.{nat_eq}
use my_proxy.Tracker.{
  Tracker, Request, new_request, start_request, end_request, TrackerCall, start, finish,
  run_tracker,
}

-- A call that does not end the request.
abbrev pub Spares : ℕ → TrackerCall → Type 0
Spares id (start session_id sql now) = Unit
Spares id (finish other) = other ≢ id

start_request-next :
    (session_id sql : Bytes) (now : ℕ) (t : Tracker)
    → t.next_id + 1 < 2 ^ 64
    → start_request session_id sql now t ≡ (
      record {
        requests =
            insert (t.next_id + 1) (new_request (t.next_id + 1) session_id sql now) t.requests;
        next_id = t.next_id + 1;
      },
      t.next_id + 1,
    )
unfolding start_request
start_request-next session_id sql now t small =
    let whole : (t.next_id + 1) % 2 ^ 64 ≡ t.next_id + 1 = omega arith in rw whole refl

-- A request whose number was given out is found as it is behind any calls that do not end it.
run_tracker-kept :
    (id : ℕ) (r : Request) (calls : List TrackerCall) (t : Tracker)
    → t.next_id + length calls < 2 ^ 64
    → id ≤ t.next_id
    → lookup id t.requests ≡ some r
    → All (Spares id) calls
    → lookup id (run_tracker calls t).requests ≡ some r
unfolding run_tracker end_request
run_tracker-kept id r [] t small given found spares = found
run_tracker-kept id r (start session_id sql now ∷ calls) t small given found (one, spares) =
    let next = start_request-next session_id sql now t (omega arith) in
    ap (λ p. lookup id (run_tracker calls p.0).requests) next
    ∙ run_tracker-kept id r calls _ (omega arith) (omega arith)
        (lookup-insert_ne (t.next_id + 1) id (new_request (t.next_id + 1) session_id sql now)
            t.requests (λ e. absurd (omega arith))
          ∙ found)
        spares
run_tracker-kept id r (finish other ∷ calls) t small given found (ne, spares) =
    run_tracker-kept id r calls _ (omega arith) given
      (lookup-delete_ne other id t.requests ne ∙ found) spares

-- A request that starts, where fewer than 2 ^ 64 requests have started by then: behind any other
-- starts and ends it is found under its number with its session, its text cut to 500 bytes and its
-- time, as long as it has not ended; its end takes it out.
pub start_request-run_tracker :
    (session_id sql : Bytes) (now : ℕ) (calls : List TrackerCall) (t : Tracker)
    → t.next_id + 1 + length calls < 2 ^ 64
    → All (Spares (t.next_id + 1)) calls
    → (lookup (t.next_id + 1) (run_tracker calls (start_request session_id sql now t).0).requests
        ≡ some (new_request (t.next_id + 1) session_id sql now))
      × (lookup
            (t.next_id + 1)
            (end_request
              (t.next_id + 1)
              (run_tracker calls (start_request session_id sql now t).0)).requests
          ≡ none)
unfolding end_request
start_request-run_tracker session_id sql now calls t small spares =
    let next = start_request-next session_id sql now t (omega arith) in
    (
      ap (λ p. lookup (t.next_id + 1) (run_tracker calls p.0).requests) next
          ∙ run_tracker-kept (t.next_id + 1) _ calls _ small (omega arith)
              (lookup-insert_self (t.next_id + 1) _ t.requests) spares,
      lookup-delete_self (t.next_id + 1) _,
    )
