-- ===== src/Circuit/Table.antt =====
-- The table `circuitBreakers`: provider and upstream to the breaker's state. An entry is never
-- removed nor replaced, so a probe that keeps a pointer to a state is a probe that keeps its key.
use claude_gateway.Prelude.{
  ℕ, ◌+◌, ◌≤◌, ◌<◌, String, ◌≡◌, Bool, true, false, Option, none, some, List, lookup, insert,
  lookup-insert, str_eq, str_eq_refl, if◌then◌else◌, arith,
}
use claude_gateway.Circuit.{
  Circuit, Grant, fresh, is_open, acquire, release, trip, reset, cooldown, failure_window,
  base_cooldown,
}

abbrev pub Breakers : Type 0
Breakers = List (String × Circuit)

unfoldable pub circuit_open : Bool → ℕ → String → Breakers → Bool
circuit_open enabled now key m =
    if enabled then elim (lookup key m) [ none ↦ false | some c ↦ is_open now c ] else false

unfoldable pub acquire_attempt : Bool → Bool → ℕ → String → Breakers → Breakers × Grant
acquire_attempt enabled last_remaining now key m =
    if enabled
    then elim (lookup key m) [
      | none ↦ (m, Grant.free)
      | some c ↦ (insert key (acquire last_remaining now c).0 m, (acquire last_remaining now c).1)
    ]
    else (m, Grant.free)

-- `releaseCircuitProbe` goes through the probe's pointer, whatever `circuitEnabled` says.
unfoldable pub release_probe : String → ℕ → Breakers → Breakers
release_probe key acquired_at m = elim (lookup key m) [
  | none ↦ m
  | some c ↦ insert key (release acquired_at c) m
]

abbrev or_fresh : Option Circuit → Circuit
or_fresh none = fresh
or_fresh (some c) = c

-- `LoadOrStore`
unfoldable pub trip_circuit : Bool → ℕ → String → Breakers → Breakers
trip_circuit enabled now key m =
    if enabled then insert key (trip now (or_fresh (lookup key m))) m else m

unfoldable pub reset_circuit : ℕ → String → Breakers → Breakers
reset_circuit started key m = elim (lookup key m) [
  | none ↦ m
  | some c ↦ insert key (reset started c) m
]

or_fresh_twice :
    (t u now : ℕ)
    → t ≤ u
    → u ≤ t + failure_window
    → now < u + base_cooldown
    → ((acquire false now (trip u (trip t fresh))).1 ≡ Grant.refused)
      × (is_open now (trip u (trip t fresh)) ≡ true)
unfolding acquire trip is_open cooldown
or_fresh_twice t u now le near early = ground arith

lookup-trip_circuit :
    (now : ℕ) (key other : String) (m : Breakers)
    → lookup other (trip_circuit true now key m)
      ≡ (if str_eq key other then some (trip now (or_fresh (lookup key m))) else lookup other m)
unfolding trip_circuit
lookup-trip_circuit now key other m = lookup-insert key other _ m

lookup-trip_circuit_twice :
    (t u : ℕ) (key other : String) (m : Breakers)
    → lookup key m ≡ none
    → lookup other (trip_circuit true u key (trip_circuit true t key m))
      ≡ (if str_eq key other then some (trip u (trip t fresh)) else lookup other m)
lookup-trip_circuit_twice t u key other m absent =
    rw
      (
        lookup-trip_circuit u key other (trip_circuit true t key m),
        lookup-trip_circuit t key other m,
        lookup-trip_circuit t key key m,
        str_eq_refl key,
        absent,
      )
      (ground arith)

-- A leg's first two failures, `t` and `u`, within the failure window of one another: until the
-- base cooldown after the second is over, every request that has another leg left is refused, and
-- a leg under another key keeps its state.
pub trip_circuit_twice :
    (t u now : ℕ) (key other : String) (m : Breakers)
    → lookup key m ≡ none
    → str_eq key other ≡ false
    → t ≤ u
    → u ≤ t + failure_window
    → now < u + base_cooldown
    → let m' = trip_circuit true u key (trip_circuit true t key m) in
      ((acquire_attempt true false now key m').1 ≡ Grant.refused)
      × (circuit_open true now key m' ≡ true)
      × (lookup other m' ≡ lookup other m)
unfolding acquire_attempt circuit_open
trip_circuit_twice t u now key other m absent apart le near early = ground (
  arith,
  or_fresh_twice t u now le near early,
  lookup-trip_circuit_twice t u key key m absent,
  lookup-trip_circuit_twice t u key other m absent,
  str_eq_refl key,
)
