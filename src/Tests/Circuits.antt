-- ===== src/Tests/Circuits.antt =====
-- One leg of the circuit breaker on concrete histories.
use claude_gateway.Prelude.{
  ℕ, ◌+◌, ◌*◌, ◌≡◌, ◌≢◌, refl, Bool, true, false, some, List, [], ◌∷◌, lookup, second, minute,
  arith,
}
use claude_gateway.Circuit.{
  Circuit, Grant, fresh, acquire, release, trip, reset, cooldown, is_open, base_cooldown,
}
use claude_gateway.Circuit.Table.{
  Breakers, trip_circuit, acquire_attempt, circuit_open, trip_circuit_twice, release_probe,
  reset_circuit,
}
use claude_gateway.Circuit.History.{
  Call, trips, acquires, releases, IsValid, step, run, run-fresh-IsValid,
}
use claude_gateway.Circuit.Backoff
use claude_gateway.Circuit.Backoff.{Streak, cooldown-eq-min, trips-fresh}
use claude_gateway.Circuit.Probes.{
  Spaced, acquire-run-Spaced, acquire-run_admits, trip-acquire_second_probe, reset_closes,
}

-- Two failures open the leg, the last remaining leg probes early, and the probe is returned.
abbrev history : List (ℕ × Call)
history = (1, trips) ∷ (2, trips) ∷ (3, acquires true) ∷ (4, releases 3) ∷ []

abbrev tried : Circuit
tried = record {
  failures = 2;
  opens = 1;
  last_fail = 2;
  open_until = 2 + base_cooldown;
  half_open = false;
  last_probe = 3;
}

history-run : run history (fresh, []) ≡ (tried, 3 ∷ [])
unfolding run step trip acquire release cooldown
history-run = refl

run-fresh-IsValid_example : IsValid 4 (run history (fresh, []))
run-fresh-IsValid_example = run-fresh-IsValid history (omega arith)

trips-fresh_example : Streak 3 9 (Backoff.trips (5 ∷ 7 ∷ 9 ∷ []) fresh)
trips-fresh_example = trips-fresh 5 (7 ∷ 9 ∷ []) (omega arith)

cooldown-eq-min_example : cooldown 3 ≡ 240 * second
cooldown-eq-min_example = cooldown-eq-min 3

acquire-run-Spaced_example :
    Spaced (3 + 2 * second) (run history (fresh, [])).1 × (◌≡◌ {A = Bool} true true)
unfolding run step trip acquire release cooldown
acquire-run-Spaced_example =
    acquire-run-Spaced history true (3 + 2 * second) (3 + 2 * second) (omega arith) (omega arith)
      refl

acquire-run_admits_example :
    (acquire false (6 * minute) (run history (fresh, [])).0).1 ≢ Grant.refused
unfolding run step trip acquire release cooldown
acquire-run_admits_example =
    acquire-run_admits history false (6 * minute) (omega arith) refl (omega arith)

abbrev probing : Circuit
probing = record tried { half_open = true }

trip-acquire_second_probe_example :
    ((acquire false (3 * second) probing).1 ≡ Grant.refused)
    × ((acquire true (3 * second) (trip 5 probing)).1 ≡ Grant.probe (3 * second))
trip-acquire_second_probe_example =
    trip-acquire_second_probe probing false 5 (3 * second) refl (omega arith) (omega arith)

reset_closes_example :
    ((acquire false 11 (reset 10 tried)).1 ≡ Grant.free)
    × (is_open 11 (reset 10 tried) ≡ false)
    × (reset 1 tried ≡ tried)
reset_closes_example =
    reset_closes tried 10 1 11 false (omega arith) (omega arith) (omega arith) (omega arith)
      (omega arith)

abbrev other_leg : Breakers
other_leg = ("b|opus", tried) ∷ []

trip_circuit_twice_example :
    let m = trip_circuit true 20 "a|opus" (trip_circuit true 10 "a|opus" other_leg) in
    ((acquire_attempt true false 30 "a|opus" m).1 ≡ Grant.refused)
    × (circuit_open true 30 "a|opus" m ≡ true)
    × (lookup "b|opus" m ≡ some tried)
trip_circuit_twice_example =
    trip_circuit_twice 10 20 30 "a|opus" "b|opus" other_leg refl refl (omega arith) (omega arith)
      (omega arith)

-- The probe's key finds the state again, and a success closes the leg.
table_run :
    lookup "a" (reset_circuit 9 "a" (release_probe "a" 3 (("a", probing) ∷ [])))
    ≡ some (record fresh { last_probe = 3 })
unfolding reset_circuit release_probe reset release
table_run = refl
