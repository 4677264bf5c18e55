-- ===== src/Tests/Routes.antt =====
-- Runs of the route counters and of the outage detection, and the witnesses of their theorems.
use claude_gateway.Prelude.{true, ◌*◌, List, [], ◌∷◌, ◌≡◌, refl, none, some, lookup, second, arith}
use claude_gateway.Load.{
  give_back, mark_done, no_loads, reserve_route, release_route, in_flight_count,
}
use claude_gateway.Load.Count.{Call, reserves, releases, run, Agrees, run-Agrees}
use claude_gateway.Outage.{active_time, Settings, Outage, minimum, clear_failures, outage_window}
use claude_gateway.Outage.Arming.{fails, fails-clear_failures}

-- The second release of the first reservation changes nothing.
abbrev released_twice : List Call
released_twice =
    reserves "a" ∷ reserves "a" ∷ reserves "b" ∷ releases 0 ∷ releases 0 ∷ releases 2 ∷ []

released_twice_counts :
    (lookup "a" (run released_twice no_loads).in_flight ≡ some 1)
    × (lookup "b" (run released_twice no_loads).in_flight ≡ none)
unfolding run reserve_route release_route in_flight_count give_back mark_done
released_twice_counts = (refl, refl)

run-Agrees_example : Agrees (run released_twice no_loads)
run-Agrees_example = run-Agrees released_twice

abbrev default_settings : Settings
default_settings = record { window_seconds = 0; min_failures = 0; active_seconds = 0 }

abbrev armed_before : Outage
armed_before = record { signals = 7 ∷ []; active_until = 5 }

fails-clear_failures_example :
    let (after, answer) =
      fails default_settings
        (10 * second ∷ 20 * second ∷ 130 * second ∷ [])
        (clear_failures armed_before) in
    (answer ≡ true) × (after.active_until ≡ 430 * second)
unfolding minimum outage_window active_time
fails-clear_failures_example =
    fails-clear_failures default_settings (10 * second) (130 * second)
      (10 * second ∷ 20 * second ∷ 130 * second ∷ []) armed_before (omega arith)
      (omega arith, (omega arith, (omega arith, omega arith))) (omega arith) (omega arith)
