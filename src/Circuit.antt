-- ===== src/Circuit.antt =====
-- The circuit breaker of anthropic-proxy.go: `circuitState`, `circuitOpen`,
-- `acquireCircuitAttempt`, `releaseCircuitProbe`, `tripCircuit` and `resetCircuitAfter`.
-- The clock reading of each call is an argument; `enabled` is the answer of `circuitEnabled`.
pub mod Table
pub mod History
pub mod Backoff
pub mod Probes
use claude_gateway.Prelude.{
  ℕ, ◌+◌, ◌*◌, ◌^◌, Bool, true, false, not, ◌&&◌, ◌||◌, Option, none, some, ltb, ◌==◌,
  if◌then◌else◌, second, minute,
}

pub record Circuit : Type 0 where
  pub failures : ℕ
  pub opens : ℕ
  pub last_fail : ℕ
  pub open_until : ℕ
  pub half_open : Bool
  pub last_probe : ℕ

abbrev pub failure_threshold : ℕ
failure_threshold = 2

abbrev pub failure_window : ℕ
failure_window = 10 * minute

abbrev pub base_cooldown : ℕ
base_cooldown = 30 * second

abbrev pub max_cooldown : ℕ
max_cooldown = 5 * minute

abbrev pub recovery_delay : ℕ
recovery_delay = 2 * second

-- `&circuitState{}`
abbrev pub fresh : Circuit
fresh = record {
  failures = 0;
  opens = 0;
  last_fail = 0;
  open_until = 0;
  half_open = false;
  last_probe = 0;
}

-- `state.halfOpen || time.Now().Before(state.openUntil)`
unfoldable pub is_open : ℕ → Circuit → Bool
is_open now c = c.half_open || ltb now c.open_until

-- The attempt is refused, or granted without a probe, or granted with the probe's time.
pub data Grant : Type 0 where
  refused : Grant
  free : Grant
  probe : ℕ → Grant

unfoldable pub acquire : Bool → ℕ → Circuit → Circuit × Grant
acquire last_remaining now c =
    if c.half_open
    then (c, refused)
    else if ltb now c.open_until
        && (not last_remaining
            || (not (c.last_probe == 0) && ltb now (c.last_probe + recovery_delay)))
    then (c, refused)
    else if c.open_until == 0
    then (c, free)
    else (record c { half_open = true; last_probe = now }, probe now)

-- Only the probe that is the latest one closes the half-open state.
unfoldable pub release : ℕ → Circuit → Circuit
release acquired_at c = if c.last_probe == acquired_at then record c { half_open = false } else c

-- The switch on `state.opens` in `tripCircuit`; `<<` doubles.
unfoldable pub cooldown : ℕ → ℕ
cooldown opens =
    let shifted = base_cooldown * 2 ^ opens in
    if ltb opens 4
    then (if ltb max_cooldown shifted then max_cooldown else shifted)
    else max_cooldown

-- `now.Sub(state.lastFail) > circuitFailureWindow`: the streak is forgotten.
unfoldable pub forget : ℕ → Circuit → Circuit
forget now c =
    if ltb (c.last_fail + failure_window) now then record c { failures = 0; opens = 0 } else c

unfoldable pub count_failure : ℕ → Circuit → Circuit
count_failure now c = record c { failures = c.failures + 1; last_fail = now; half_open = false }

unfoldable pub trip : ℕ → Circuit → Circuit
unfolding forget count_failure
trip now c =
    let d = count_failure now (forget now c) in
    if ltb d.failures failure_threshold
    then d
    else record d { opens = d.opens + 1; open_until = now + cooldown d.opens }

-- `started` is 0 for `resetCircuit`; a success that began before the last failure is stale.
unfoldable pub reset : ℕ → Circuit → Circuit
reset started c =
    if not (started == 0) && (ltb started c.last_fail || (c.half_open && ltb started c.last_probe))
    then c
    else record c { failures = 0; opens = 0; open_until = 0; last_fail = 0; half_open = false }
