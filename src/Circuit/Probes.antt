-- ===== src/Circuit/Probes.antt =====
-- Half-open probes: who may try a leg while it is open, and how often.
use claude_gateway.Prelude.{
  ℕ, ◌+◌, ◌≤◌, ◌<◌, ◌≡◌, ◌⊎◌, ◌≢◌, Bool, true, false, List, [], ◌∷◌, arith,
}
use claude_gateway.Circuit.{
  Circuit, Grant, fresh, acquire, trip, reset, cooldown, recovery_delay, max_cooldown, is_open,
}
use claude_gateway.Circuit.Backoff.{pow_pos, cooldown-eq-min}
use claude_gateway.Circuit.History.{Call, Ordered, Before, IsValid, run, run-fresh-IsValid}

-- Every earlier probe lies a recovery interval or more before `now`.
abbrev pub Spaced : ℕ → List ℕ → Type 0
Spaced now [] = Unit
Spaced now (p ∷ ps) = (p + recovery_delay ≤ now) × Spaced now ps

Spaced-Before :
    (b now : ℕ) (ps : List ℕ) → (b ≡ 0) ⊎ (b + recovery_delay ≤ now) → Before b ps → Spaced now ps
Spaced-Before b now [] h q = tt
Spaced-Before b now (p ∷ ps) h q = (ground arith, Spaced-Before b now ps h q.2)

acquire_early :
    (last : Bool) (now t : ℕ) (c : Circuit)
    → now < c.open_until
    → (acquire last now c).1 ≡ Grant.probe t
    → ((c.last_probe ≡ 0) ⊎ (c.last_probe + recovery_delay ≤ t)) × (last ≡ true)
unfolding acquire
acquire_early last now t c early g = ground arith

-- After any history, a probe that is granted before the cooldown is over comes at least a
-- recovery interval after every probe granted before, and only to the last remaining leg.
pub acquire-run-Spaced :
    (h : List (ℕ × Call)) (last : Bool) (now t : ℕ)
    → Ordered 0 h
    → now < (run h (fresh, [])).0.open_until
    → (acquire last now (run h (fresh, [])).0).1 ≡ Grant.probe t
    → Spaced t (run h (fresh, [])).1 × (last ≡ true)
acquire-run-Spaced h last now t o early g =
    let (spaced, chosen) = acquire_early last now t (run h (fresh, [])).0 early g in
    (Spaced-Before _ t (run h (fresh, [])).1 spaced (run-fresh-IsValid h o).logged, chosen)

admits :
    (last : Bool) (now t : ℕ) (s : Circuit × List ℕ)
    → IsValid t s
    → s.0.half_open ≡ false
    → s.0.last_fail + max_cooldown ≤ now
    → (acquire last now s.0).1 ≢ Grant.refused
unfolding acquire
admits last now t s v idle late = ground arith

-- After any history, once five minutes have passed since the last failure, a leg with no probe
-- in flight is not refused, whoever asks.
pub acquire-run_admits :
    (h : List (ℕ × Call)) (last : Bool) (now : ℕ)
    → Ordered 0 h
    → (run h (fresh, [])).0.half_open ≡ false
    → (run h (fresh, [])).0.last_fail + max_cooldown ≤ now
    → (acquire last now (run h (fresh, [])).0).1 ≢ Grant.refused
acquire-run_admits h last now o idle late =
    admits last now _ (run h (fresh, [])) (run-fresh-IsValid h o) idle late

cooldown_pos : (n : ℕ) → 0 < cooldown n
cooldown_pos n = rw cooldown-eq-min (omega (arith, pow_pos n))

trip_ends_probe :
    (c : Circuit) (t : ℕ)
    → 0 < c.open_until
    → ((trip t c).half_open ≡ false)
      × ((trip t c).last_probe ≡ c.last_probe)
      × (0 < (trip t c).open_until)
unfolding trip
trip_ends_probe c t kept = ground (arith, cooldown_pos c.opens, cooldown_pos 0)

-- While a probe is in flight every attempt is refused; but a failure that is reported in that
-- time, also by another request, ends the half-open state, and once the recovery interval is over
-- the last remaining leg is granted a second probe beside the first.
pub trip-acquire_second_probe :
    (c : Circuit) (last : Bool) (t now : ℕ)
    → c.half_open ≡ true
    → 0 < c.open_until
    → c.last_probe + recovery_delay ≤ now
    → ((acquire last now c).1 ≡ Grant.refused) × ((acquire true now (trip t c)).1 ≡ Grant.probe now)
unfolding acquire
trip-acquire_second_probe c last t now busy kept late = ground (arith, trip_ends_probe c t)

-- A success that began after the last failure, and after the latest probe, closes the circuit:
-- every attempt is granted and none of them is a probe. A success that began before the last
-- failure leaves the circuit as it was.
pub reset_closes :
    (c : Circuit) (started stale now : ℕ) (last : Bool)
    → 0 < started
    → c.last_fail ≤ started
    → c.last_probe ≤ started
    → 0 < stale
    → stale < c.last_fail
    → ((acquire last now (reset started c)).1 ≡ Grant.free)
      × (is_open now (reset started c) ≡ false)
      × (reset stale c ≡ c)
unfolding acquire reset is_open
reset_closes c started stale now last pos failed probed some_time old = ground arith
