-- ===== src/Tests/Networks.antt =====
-- A network incident from its first signal to its end.
use claude_gateway.Prelude.{ℕ, ◌*◌, ◌≡◌, refl, true, false, List, [], ◌∷◌, second, arith}
use claude_gateway.Provider.{no_state}
use claude_gateway.Provider.Quarantine.{Policy}
use claude_gateway.Network.{
  probe, no_incident, begin_request, transport_failure, is_active, offline, go, origin_threshold,
}
use claude_gateway.Network.Probe
use claude_gateway.Network.Probe.{
  Call, fails, begins, finishes, succeeds, start, run-begin_request-offline, Trace, IsOffline,
  Waiting,
}
use claude_gateway.Network.Confirm.{failures, failures_of_one_origin}

abbrev policy : Policy
policy = record {
  enabled = true;
  signal_threshold = 2;
  window_seconds = 300;
  base_seconds = 30;
  max_seconds = 120;
  recovery_successes = 2;
  network_incident_origins = 0;
  network_incident_window_seconds = 0;
  network_incident_suppress_seconds = 0;
}

abbrev calls : List (ℕ × Call)
calls =
    (1, fails true "https://a")
    ∷ (2, fails true "https://b")
    ∷ (3 * second, begins)
    ∷ (3 * second, begins)
    ∷ (4 * second, finishes true false)
    ∷ (7 * second, begins)
    ∷ []

abbrev down : Trace
down = record start {
  shared = record {
    states = [];
    incident = record no_incident {
      phase = offline;
      active_until = 90 * second;
      next_probe_at = 2 * second;
    };
  };
}

-- Two requests and a failure before the probe is due.
abbrev early_calls : List (ℕ × Call)
early_calls = (second, begins) ∷ (second, fails true "https://a") ∷ (1_500_000_000, begins) ∷ []

run-begin_request-offline_example :
    let s = Probe.run policy early_calls down in
    (s.granted ≡ 0)
    × ((begin_request policy (3 * second) s.shared.incident).1 ≡ probe)
    × ((begin_request policy (90 * second) s.shared.incident).1 ≡ go)
run-begin_request-offline_example =
    run-begin_request-offline policy (2 * second) (90 * second) (3 * second) (90 * second)
      early_calls down (record { down = refl; free = refl; next = refl; end = refl })
      (omega arith, tt, (omega arith, tt, (omega arith, tt, tt))) (omega arith) (omega arith)
      (omega arith)

failures_of_one_origin_example :
    let s =
      failures policy "https://a"
        ((1, true) ∷ (2, true) ∷ (3, false) ∷ [])
        (record { states = ("work", no_state) ∷ []; incident = no_incident }) in
    (is_active s.incident.phase ≡ false)
    × (s.states ≡ ("work", no_state) ∷ [])
    × ((transport_failure policy true 4 "https://a" s).1.stop_fallback ≡ false)
unfolding origin_threshold
failures_of_one_origin_example =
    failures_of_one_origin policy "https://a" ((1, true) ∷ (2, true) ∷ (3, false) ∷ []) 4
      (("work", no_state) ∷ []) (omega arith)

-- A failure of which nothing came, and the two that are heard after it.
abbrev forgotten : List (ℕ × Call)
forgotten = (1, fails true "https://c") ∷ []
