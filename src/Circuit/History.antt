-- ===== src/Circuit/History.antt =====
-- Histories of one circuit: timed calls in the order in which its mutex admits them.
use claude_gateway.Prelude.{ℕ, ◌+◌, ◌-◌, ◌≤◌, ◌<◌, ◌≡◌, ◌⊎◌, Bool, false, List, [], ◌∷◌, arith}
use claude_gateway.Circuit.{
  Circuit, Grant, fresh, acquire, release, trip, reset, cooldown, max_cooldown,
}

pub data Call : Type 0 where
  trips : Call
  acquires : Bool → Call
  releases : ℕ → Call
  resets : ℕ → Call

abbrev pub log : Grant → List ℕ → List ℕ
log (Grant.probe t) ps = t ∷ ps
log _ ps = ps

-- A circuit and the times of the probes that it granted, the latest first.
unfoldable pub step : ℕ → Call → Circuit × List ℕ → Circuit × List ℕ
step now trips (c, ps) = (trip now c, ps)
step now (acquires last) (c, ps) = ((acquire last now c).0, log (acquire last now c).1 ps)
step now (releases t) (c, ps) = (release t c, ps)
step now (resets started) (c, ps) = (reset started c, ps)

unfoldable pub run : List (ℕ × Call) → Circuit × List ℕ → Circuit × List ℕ
run [] s = s
run ((now, call) ∷ h) s = run h (step now call s)

-- The clock does not go back, and is never the zero time.
abbrev pub Ordered : ℕ → List (ℕ × Call) → Type 0
Ordered t [] = Unit
Ordered t ((now, call) ∷ h) = (t ≤ now) × (0 < now) × Ordered now h

abbrev pub end_time : ℕ → List (ℕ × Call) → ℕ
end_time t [] = t
end_time t ((now, call) ∷ h) = end_time now h

abbrev pub Before : ℕ → List ℕ → Type 0
Before t [] = Unit
Before t (p ∷ ps) = (0 < p) × (p ≤ t) × Before t ps

pub record IsValid (now : ℕ) (s : Circuit × List ℕ) : Type 0 where
  pub streak : s.0.opens ≡ s.0.failures - 1
  pub past : s.0.last_fail ≤ now
  pub short : s.0.open_until ≤ s.0.last_fail + max_cooldown
  pub probing : (s.0.half_open ≡ false) ⊎ (0 < s.0.open_until)
  pub probed : s.0.last_probe ≤ now
  pub logged : Before s.0.last_probe s.1

pub cooldown-le : (n : ℕ) → cooldown n ≤ max_cooldown
unfolding cooldown
cooldown-le n = ground arith

Before-mono : (t u : ℕ) (ps : List ℕ) → t ≤ u → Before t ps → Before u ps
Before-mono t u [] h b = tt
Before-mono t u (p ∷ ps) h b = (b.0, omega arith, Before-mono t u ps h b.2)

step-IsValid :
    (t now : ℕ) (call : Call) (s : Circuit × List ℕ)
    → t ≤ now
    → 0 < now
    → IsValid t s
    → IsValid now (step now call s)
unfolding step acquire release trip reset
step-IsValid t now trips (c, ps) le pos v = ground (arith, cooldown-le c.opens, cooldown-le 0)
step-IsValid t now (acquires last) (c, ps) le pos v =
    ground (arith, Before-mono c.last_probe now ps)
step-IsValid t now (releases u) (c, ps) le pos v = ground arith
step-IsValid t now (resets started) (c, ps) le pos v = ground arith

run-IsValid :
    (t : ℕ) (h : List (ℕ × Call)) (s : Circuit × List ℕ)
    → Ordered t h
    → IsValid t s
    → IsValid (end_time t h) (run h s)
unfolding run
run-IsValid t [] s o v = v
run-IsValid t ((now, call) ∷ h) s o v =
    run-IsValid now h (step now call s) o.2 (step-IsValid t now call s o.0 o.1 v)

fresh-IsValid : IsValid 0 (fresh, [])
fresh-IsValid = ground arith

-- After any calls in any order, on a circuit that started fresh: `opens` is one less than the
-- failures of the streak, the circuit is not kept open for more than five minutes past the last
-- failure, it is half-open only while a cooldown is on record, and every probe was granted no
-- later than the latest one, which is not in the future.
pub run-fresh-IsValid :
    (h : List (ℕ × Call)) → Ordered 0 h → IsValid (end_time 0 h) (run h (fresh, []))
run-fresh-IsValid h o = run-IsValid 0 h (fresh, []) o fresh-IsValid
