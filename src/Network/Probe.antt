-- ===== src/Network/Probe.antt =====
-- Who may ask the network whether it is back: one request at a time, and one at last.
use claude_gateway.Prelude.{
  ℕ, ◌+◌, ◌≤◌, ◌<◌, ◌≡◌, String, Bool, true, false, List, [], ◌∷◌, not, ◌&&◌, arith, refl, ◌∙◌,
}
use claude_gateway.Provider.Quarantine.{Policy}
use claude_gateway.Network.{
  Incident, Shared, Admission, no_incident, normalize, observe_shared, transport_failure, suspect,
  confirm, begin_request, finish_probe, observe_success, is_recovering, normal, offline, go, probe,
}

pub data Call : Type 0 where
  observes : String → Call
  fails : Bool → String → Call
  begins : Call
  finishes : Bool → Bool → Call
  succeeds : Call

-- The incident after the call, the probes granted so far and the probes that have ended: a probe
-- ends with its failure, or with a successful request, while the phase is recovering.
pub record Trace : Type 0 where
  pub shared : Shared
  pub granted : ℕ
  pub ended : ℕ

abbrev pub one_if : Bool → ℕ
one_if true = 1
one_if false = 0

abbrev is_probe : Admission → Bool
is_probe probe = true
is_probe _ = false

unfoldable pub step : Policy → ℕ → Call → Trace → Trace
step p now (observes signal) t = record t {
  shared = record (t.shared) { incident = (observe_shared p now signal t.shared.incident).0 };
}
step p now (fails strong origin) t = record t {
  shared = (transport_failure p strong now origin t.shared).0;
}
step p now begins t = record t {
  shared = record (t.shared) { incident = (begin_request p now t.shared.incident).0 };
  granted = t.granted + one_if (is_probe (begin_request p now t.shared.incident).1);
}
step p now (finishes is_the_probe success) t = record t {
  shared = record (t.shared) { incident = finish_probe is_the_probe success now t.shared.incident };
  ended = t.ended + one_if (is_the_probe && not success && is_recovering t.shared.incident.phase);
}
step p now succeeds t = record t {
  shared = record (t.shared) { incident = observe_success t.shared.incident };
  ended = t.ended + one_if (is_recovering t.shared.incident.phase);
}

unfoldable pub run : Policy → List (ℕ × Call) → Trace → Trace
run p [] t = t
run p ((now, call) ∷ calls) t = run p calls (step p now call t)

abbrev pub start : Trace
start = record { shared = record { states = []; incident = no_incident }; granted = 0; ended = 0 }

-- A probe is in flight in the recovering phase, and only then.
pub record IsSingle (t : Trace) : Type 0 where
  pub in_flight : t.shared.incident.probe_in_flight ≡ is_recovering t.shared.incident.phase
  pub balance : t.granted ≡ t.ended + one_if (is_recovering t.shared.incident.phase)

-- The incident is on, no probe is in flight, and the next one is due at `due`.
pub record IsOffline (due until : ℕ) (i : Incident) : Type 0 where
  pub down : i.phase ≡ offline
  pub free : i.probe_in_flight ≡ false
  pub next : i.next_probe_at ≡ due
  pub end : i.active_until ≡ until

normalize-IsOffline :
    (p : Policy) (now due until : ℕ) (i : Incident)
    → now < until
    → IsOffline due until i
    → IsOffline due until (normalize p now i)
unfolding normalize
normalize-IsOffline p now due until i early o = ground (arith, o)

-- Calls that come before the next probe is due; no request succeeds and no probe ends.
abbrev pub IsIdle : Call → Type 0
IsIdle (observes signal) = Unit
IsIdle (fails strong origin) = Unit
IsIdle begins = Unit
IsIdle (finishes is_the_probe success) = is_the_probe ≡ false
IsIdle succeeds = ⊥

abbrev pub Waiting : ℕ → List (ℕ × Call) → Type 0
Waiting due [] = Unit
Waiting due ((now, call) ∷ calls) = (now < due) × IsIdle call × Waiting due calls

step-IsOffline :
    (p : Policy) (now due until : ℕ) (call : Call) (t : Trace)
    → now < due
    → due ≤ until
    → IsIdle call
    → IsOffline due until t.shared.incident
    → IsOffline due until (step p now call t).shared.incident
      × ((step p now call t).granted ≡ t.granted)
unfolding step observe_shared begin_request finish_probe transport_failure suspect confirm
step-IsOffline p now due until (observes signal) t early order idle o =
    ground (arith, o, normalize-IsOffline p now due until t.shared.incident)
step-IsOffline p now due until (fails strong origin) t early order idle o =
    ground (arith, o, normalize-IsOffline p now due until t.shared.incident)
step-IsOffline p now due until begins t early order idle o =
    ground (arith, o, normalize-IsOffline p now due until t.shared.incident)
step-IsOffline p now due until (finishes is_the_probe success) t early order idle o =
    ground (arith, o, idle)
step-IsOffline p now due until succeeds t early order idle o = elim idle [ ]

run-IsOffline :
    (p : Policy) (due until : ℕ) (calls : List (ℕ × Call)) (t : Trace)
    → due ≤ until
    → Waiting due calls
    → IsOffline due until t.shared.incident
    → IsOffline due until (run p calls t).shared.incident × ((run p calls t).granted ≡ t.granted)
unfolding run
run-IsOffline p due until [] t order w o = (o, refl)
run-IsOffline p due until ((now, call) ∷ calls) t order w o =
    let (next, same) = step-IsOffline p now due until call t w.0 order w.1 o in
    let (last, later) = run-IsOffline p due until calls (step p now call t) order w.2 next in
    (last, later ∙ same)

normalize_over :
    (p : Policy) (later due until : ℕ) (i : Incident)
    → IsOffline due until i
    → 0 < until
    → until ≤ later
    → (normalize p later i).phase ≡ normal
unfolding normalize
normalize_over p later due until i o pos late = ground (arith, o)

due-probe :
    (p : Policy) (now later due until : ℕ) (i : Incident)
    → IsOffline due until i
    → due ≤ now
    → now < until
    → until ≤ later
    → ((begin_request p now i).1 ≡ probe) × ((begin_request p later i).1 ≡ go)
unfolding begin_request
due-probe p now later due until i o ready early late =
    ground (
      arith,
      o,
      normalize-IsOffline p now due until i early o,
      normalize_over p later due until i o,
    )

-- In an offline gateway with no probe in flight, any calls before the next probe is due - requests,
-- observed signals, transport failures, ends of requests that are not the probe - grant no probe
-- and do not put it off: the first request from its time on and before the incident's end is let
-- through as the probe, and one after the incident's end goes on as usual.
pub run-begin_request-offline :
    (p : Policy) (due until now later : ℕ) (calls : List (ℕ × Call)) (t : Trace)
    → IsOffline due until t.shared.incident
    → Waiting due calls
    → due ≤ now
    → now < until
    → until ≤ later
    → let s = run p calls t in
      (s.granted ≡ t.granted)
      × ((begin_request p now s.shared.incident).1 ≡ probe)
      × ((begin_request p later s.shared.incident).1 ≡ go)
run-begin_request-offline p due until now later calls t o w ready early late =
    let (last, same) = run-IsOffline p due until calls t (omega (arith, ready, early)) w o in
    let (through, on) =
      due-probe p now later due until (run p calls t).shared.incident last ready early late in
    (same, through, on)
