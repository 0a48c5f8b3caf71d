-- ===== src/Tracker/Slow.antt =====
-- The list of the slow requests, and the counts of the statistics.
use my_proxy.Base.{
  ℕ, ◌+◌, ◌*◌, ◌≤◌, ◌≡◌, All, refl, sym, ◌∙◌, List, [], ◌∷◌, length, ltb, leb, Bool-cases, inl, inr,
  arith, length-map,
}
use my_proxy.Base.Dict.{Dict}
use my_proxy.Tracker.Reports.{
  IsReport, IsReported, in_flight, All-weaken, sort_by_start-All, select_slow-IsReport,
  select_slow-IsReported, sort_by_start-IsReported,
}
use my_proxy.Tracker.{
  Tracker, Request, duration_of, select_slow, insert_by_start, sort_by_start, get_slow_requests,
  get_all_requests, Stats, one_second, count_from, count_one, no_stats, count_stats, get_stats,
}

-- Every request starts at or after the ones before it, the first at or after a time.
abbrev pub AscendsFrom : ℕ → List Request → Type 0
AscendsFrom low [] = Unit
AscendsFrom low (r ∷ rest) = (low ≤ r.start_time) × AscendsFrom r.start_time rest

insert_by_start-AscendsFrom :
    (low : ℕ) (r : Request) (rest : List Request)
    → low ≤ r.start_time
    → AscendsFrom low rest
    → AscendsFrom low (insert_by_start r rest)
unfolding insert_by_start
insert_by_start-AscendsFrom low r [] first h = (first, tt)
insert_by_start-AscendsFrom low r (s ∷ rest) first (one_second, h) =
    elim (Bool-cases (ltb s.start_time r.start_time)) [
      | inl e ↦ rw e (one_second, insert_by_start-AscendsFrom s.start_time r rest (ground arith) h)
      | inr e ↦ rw e (first, (ground arith, h))
    ]

sort_by_start-AscendsFrom : (rs : List Request) → AscendsFrom 0 (sort_by_start rs)
unfolding sort_by_start
sort_by_start-AscendsFrom [] = tt
sort_by_start-AscendsFrom (r ∷ rs) =
    insert_by_start-AscendsFrom 0 r (sort_by_start rs) (omega arith) (sort_by_start-AscendsFrom rs)

length-insert_by_start :
    (r : Request) (rest : List Request) → length (insert_by_start r rest) ≡ length rest + 1
unfolding insert_by_start
length-insert_by_start r [] = refl
length-insert_by_start r (s ∷ rest) = ground (arith, length-insert_by_start r rest)

length-sort_by_start : (rs : List Request) → length (sort_by_start rs) ≡ length rs
unfolding sort_by_start
length-sort_by_start [] = refl
length-sort_by_start (r ∷ rs) =
    omega (arith, length-insert_by_start r (sort_by_start rs), length-sort_by_start rs)

-- What the loop adds to a count.
count_from-length :
    (threshold now n : ℕ) (id : ℕ) (r : Request) (requests : Dict ℕ Request)
    → count_from threshold (duration_of now r) n + length (select_slow threshold now requests)
      ≡ n + length (select_slow threshold now ((id, r) ∷ requests))
unfolding select_slow
count_from-length threshold now n id r requests =
    elim (Bool-cases (leb threshold (duration_of now r))) [
      | inl e ↦ rw e (omega arith)
      | inr e ↦ rw e refl
    ]

-- A list that is as long as a count says.
record Counts (now : ℕ) (before : Stats) (requests : Dict ℕ Request) (s : Stats) : Type 0 where
  total : s.total_in_flight ≡ before.total_in_flight
  by_1s : s.slow_1s ≡ before.slow_1s + length (select_slow one_second now requests)
  by_5s : s.slow_5s ≡ before.slow_5s + length (select_slow (5 * one_second) now requests)
  by_30s : s.slow_30s ≡ before.slow_30s + length (select_slow (30 * one_second) now requests)

count_stats-Counts :
    (now : ℕ) (s : Stats) (requests : Dict ℕ Request)
    → Counts now s requests (count_stats now s requests)
unfolding count_stats select_slow
count_stats-Counts now s [] = record {
  total = refl;
  by_1s = omega arith;
  by_5s = omega arith;
  by_30s = omega arith;
}
count_stats-Counts now s ((id, r) ∷ requests) =
    let rest = count_stats-Counts now (count_one now r s) requests in
    record {
      total = rest.total;
      by_1s = rest.by_1s ∙ count_from-length one_second now s.slow_1s id r requests;
      by_5s = rest.by_5s ∙ count_from-length (5 * one_second) now s.slow_5s id r requests;
      by_30s = rest.by_30s ∙ count_from-length (30 * one_second) now s.slow_30s id r requests;
    }

-- The list of the slow requests is in the order of their starts; each of its entries reports the
-- number, session, text, start and running time of a request in flight that has been running for at
-- least the threshold; and every request in flight has been running for less, or is reported there.
-- At the same time the three counts of the statistics are the lengths of the lists of one, five and
-- thirty seconds, and the total is the length of the list of all.
pub get_slow_requests-get_stats :
    (threshold now : ℕ) (t : Tracker)
    → AscendsFrom 0 (get_slow_requests threshold now t)
      × All (IsReport threshold now t.requests) (get_slow_requests threshold now t)
      × All (IsReported threshold now (get_slow_requests threshold now t)) (in_flight t.requests)
      × ((get_stats now t).slow_1s ≡ length (get_slow_requests one_second now t))
      × ((get_stats now t).slow_5s ≡ length (get_slow_requests (5 * one_second) now t))
      × ((get_stats now t).slow_30s ≡ length (get_slow_requests (30 * one_second) now t))
      × ((get_stats now t).total_in_flight ≡ length (get_all_requests now t))
unfolding get_slow_requests get_stats get_all_requests
get_slow_requests-get_stats threshold now t =
    let c = count_stats-Counts now (no_stats (length t.requests)) t.requests in
    let slow = select_slow threshold now t.requests in
    (
      sort_by_start-AscendsFrom _,
      sort_by_start-All (IsReport threshold now t.requests) slow
          (select_slow-IsReport threshold now t.requests),
      All-weaken (in_flight t.requests) (sort_by_start-IsReported threshold now slow)
          (select_slow-IsReported threshold now t.requests),
      omega (arith, c.by_1s, length-sort_by_start (select_slow one_second now t.requests)),
      omega (arith, c.by_5s, length-sort_by_start (select_slow (5 * one_second) now t.requests)),
      omega (arith, c.by_30s, length-sort_by_start (select_slow (30 * one_second) now t.requests)),
      c.total ∙ sym (length-map _ t.requests) ∙ sym (length-sort_by_start _),
    )
