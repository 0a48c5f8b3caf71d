-- ===== src/Tracker.antt =====
-- pkg/reqtrack/tracker.go: the requests in flight. Times are nanoseconds on a clock that never goes
-- back, which a call takes as an argument; locks and the two HTTP handlers are left out. A range over
-- the map is in the order of the list, and requests that start at one time are sorted in any order.
pub mod Flight
pub mod Reports
pub mod Slow
mod Tests
use my_proxy.Base.{
  ℕ, ◌+◌, ◌-◌, ◌*◌, ◌%◌, ◌^◌, Bool, List, [], ◌∷◌, ◌++◌, Bytes, codes, length, take, ltb, leb, map,
  if◌then◌else◌,
}
use my_proxy.Base.Dict.{Dict, insert, delete}
use my_proxy.Base.Eq.{nat_eq}

pub record Request : Type 0 where
  pub id : ℕ
  pub session_id : Bytes
  pub sql : Bytes
  pub start_time : ℕ
  pub duration : ℕ

pub record Tracker : Type 0 where
  pub requests : Dict ℕ Request
  pub next_id : ℕ

abbrev pub new_tracker : Tracker
new_tracker = record { requests = []; next_id = 0 }

unfoldable pub truncate_sql : Bytes → ℕ → Bytes
truncate_sql sql max_len = if leb (length sql) max_len then sql else take max_len sql ++ codes "..."

-- The request, whose duration is filled in only in the copies that the lists are made of.
abbrev pub new_request : ℕ → Bytes → Bytes → ℕ → Request
new_request id session_id sql now = record {
  id = id;
  session_id = session_id;
  sql = truncate_sql sql 500;
  start_time = now;
  duration = 0;
}

unfoldable pub start_request : Bytes → Bytes → ℕ → Tracker → Tracker × ℕ
start_request session_id sql now t =
    let id = (t.next_id + 1) % 2 ^ 64 in
    (
      record { requests = insert id (new_request id session_id sql now) t.requests; next_id = id },
      id,
    )

unfoldable pub end_request : ℕ → Tracker → Tracker
end_request id t = record t { requests = delete id t.requests }

abbrev pub duration_of : ℕ → Request → ℕ
duration_of now r = now - r.start_time

-- A copy with the duration.
abbrev pub timed : ℕ → Request → Request
timed now r = record r { duration = duration_of now r }

unfoldable pub select_slow : ℕ → ℕ → Dict ℕ Request → List Request
select_slow threshold now [] = []
select_slow threshold now ((id, r) ∷ requests) =
    let rest = select_slow threshold now requests in
    if leb threshold (duration_of now r) then timed now r ∷ rest else rest

-- `sort.Slice` by the start.
unfoldable pub insert_by_start : Request → List Request → List Request
insert_by_start r [] = r ∷ []
insert_by_start r (s ∷ rest) =
    let later = insert_by_start r rest in
    if ltb s.start_time r.start_time then s ∷ later else r ∷ s ∷ rest

unfoldable pub sort_by_start : List Request → List Request
sort_by_start [] = []
sort_by_start (r ∷ rest) = insert_by_start r (sort_by_start rest)

unfoldable pub get_slow_requests : ℕ → ℕ → Tracker → List Request
get_slow_requests threshold now t = sort_by_start (select_slow threshold now t.requests)

unfoldable pub get_all_requests : ℕ → Tracker → List Request
get_all_requests now t = sort_by_start (map (λ (entry : ℕ × Request). timed now entry.1) t.requests)

pub record Stats : Type 0 where
  pub total_in_flight : ℕ
  pub slow_1s : ℕ
  pub slow_5s : ℕ
  pub slow_30s : ℕ
  pub oldest : ℕ

abbrev pub one_second : ℕ
one_second = 1000000000

abbrev pub count_from : ℕ → ℕ → ℕ → ℕ
count_from threshold duration n = if leb threshold duration then n + 1 else n

-- The body of the loop.
abbrev pub count_one : ℕ → Request → Stats → Stats
count_one now r s =
    let d = duration_of now r in
    record {
      total_in_flight = s.total_in_flight;
      slow_1s = count_from one_second d s.slow_1s;
      slow_5s = count_from (5 * one_second) d s.slow_5s;
      slow_30s = count_from (30 * one_second) d s.slow_30s;
      oldest = if ltb s.oldest d then d else s.oldest;
    }

-- The loop, with the counts so far.
unfoldable pub count_stats : ℕ → Stats → Dict ℕ Request → Stats
count_stats now s [] = s
count_stats now s ((id, r) ∷ requests) = count_stats now (count_one now r s) requests

abbrev pub no_stats : ℕ → Stats
no_stats total = record {
  total_in_flight = total;
  slow_1s = 0;
  slow_5s = 0;
  slow_30s = 0;
  oldest = 0;
}

unfoldable pub get_stats : ℕ → Tracker → Stats
get_stats now t = count_stats now (no_stats (length t.requests)) t.requests

pub data TrackerCall : Type 0 where
  start : Bytes → Bytes → ℕ → TrackerCall
  finish : ℕ → TrackerCall

-- The tracker behind some calls.
unfoldable pub run_tracker : List TrackerCall → Tracker → Tracker
run_tracker [] t = t
run_tracker (start session_id sql now ∷ calls) t =
    run_tracker calls (start_request session_id sql now t).0
run_tracker (finish id ∷ calls) t = run_tracker calls (end_request id t)
