-- ===== src/Tracker/Tests.antt =====
-- The tracker with three requests, of which one ends.
use my_proxy.Base.{◌*◌, ◌≡◌, refl, All, List, [], ◌∷◌, none, some, codes, length, map, arith}
use my_proxy.Base.Dict.{lookup, insert, delete}
use my_proxy.Base.Eq.{nat_eq}
use my_proxy.Tracker.{
  Tracker, Request, TrackerCall, start, finish, new_tracker, new_request, start_request,
  end_request, run_tracker, select_slow, insert_by_start, sort_by_start, get_slow_requests,
  get_stats, get_all_requests, one_second,
}
use my_proxy.Tracker.Flight.{start_request-run_tracker}
use my_proxy.Tracker.Reports.{IsReport, IsReported, in_flight}
use my_proxy.Tracker.Slow.{AscendsFrom, get_slow_requests-get_stats}

abbrev others : List TrackerCall
others =
    start (codes "s2") (codes "SELECT 2") 5 ∷ finish 2 ∷ start (codes "s3") (codes "DO 1") 1 ∷ []

abbrev tracked : Tracker
tracked = run_tracker others (start_request (codes "s1") (codes "SELECT 1") 3 new_tracker).0

slow_ids : map (λ (r : Request). r.id) (get_slow_requests 0 9 tracked) ≡ 3 ∷ 1 ∷ []
unfolding get_slow_requests sort_by_start insert_by_start select_slow run_tracker start_request
    end_request insert delete
slow_ids = refl

start_request-run_tracker_example :
    (lookup 1 tracked.requests ≡ some (new_request 1 (codes "s1") (codes "SELECT 1") 3))
    × (lookup 1 (end_request 1 tracked).requests ≡ none)
start_request-run_tracker_example =
    start_request-run_tracker (codes "s1") (codes "SELECT 1") 3 others new_tracker (omega arith)
      (tt, (λ e. absurd (omega arith), (tt, tt)))

get_slow_requests-get_stats_example :
    AscendsFrom 0 (get_slow_requests 7 9 tracked)
    × All (IsReport 7 9 tracked.requests) (get_slow_requests 7 9 tracked)
    × All (IsReported 7 9 (get_slow_requests 7 9 tracked)) (in_flight tracked.requests)
    × ((get_stats 9 tracked).slow_1s ≡ length (get_slow_requests one_second 9 tracked))
    × ((get_stats 9 tracked).slow_5s ≡ length (get_slow_requests (5 * one_second) 9 tracked))
    × ((get_stats 9 tracked).slow_30s ≡ length (get_slow_requests (30 * one_second) 9 tracked))
    × ((get_stats 9 tracked).total_in_flight ≡ length (get_all_requests 9 tracked))
get_slow_requests-get_stats_example = get_slow_requests-get_stats 7 9 tracked
