-- ===== src/Provider/Quarantine.antt =====
-- The quarantine of unstable providers in anthropic-proxy.go: `quarantineDuration`,
-- `observeProviderInstability` and `observeProviderHealthyAfter`. The answer of
-- `observeSharedNetworkIncidentLocked` and that of `circuitEnabled` are arguments.
use claude_gateway.Prelude.{
  ℕ, zero, suc, ◌+◌, ◌-◌, ◌*◌, String, Bool, true, false, not, ◌&&◌, ◌||◌, ltb, leb, ◌==◌, insert,
  if◌then◌else◌, second,
}
use claude_gateway.Provider.{ProviderState, States, state_of}

-- `cfg.Quarantine`
pub record Policy : Type 0 where
  pub enabled : Bool
  pub signal_threshold : ℕ
  pub window_seconds : ℕ
  pub base_seconds : ℕ
  pub max_seconds : ℕ
  pub recovery_successes : ℕ
  pub network_incident_origins : ℕ
  pub network_incident_window_seconds : ℕ
  pub network_incident_suppress_seconds : ℕ

-- The loop of `quarantineDuration`, by the rounds that are left.
unfoldable pub escalate : ℕ → ℕ → ℕ → ℕ
escalate zero maximum duration = duration
escalate (suc rounds) maximum duration =
    if ltb duration maximum
    then escalate rounds maximum (if ltb maximum (duration * 2) then maximum else duration * 2)
    else duration

unfoldable pub quarantine_duration : Policy → ℕ → ℕ
quarantine_duration p level =
    escalate (level - 1) (p.max_seconds * second) (p.base_seconds * second)

-- The window of signals restarts when it has run out.
unfoldable pub roll_window : Policy → ℕ → ProviderState → ProviderState
roll_window p now st =
    if st.signal_window_start == 0 || ltb (st.signal_window_start + p.window_seconds * second) now
    then record st { signal_window_start = now; instability_signals = 0 }
    else st

unfoldable pub count_signal : ℕ → String → ProviderState → ProviderState
count_signal now signal st = record st {
  instability_signals = st.instability_signals + 1;
  recovery_successes = 0;
  last_signal = signal;
  last_updated = now;
}

unfoldable pub quarantine : Policy → ℕ → String → ProviderState → ProviderState
quarantine p now signal st =
    let until = now + quarantine_duration p (st.quarantine_level + 1) in
    record st {
      quarantine_level = st.quarantine_level + 1;
      quarantined_until = if ltb st.quarantined_until until then until else st.quarantined_until;
      quarantine_reason = signal;
      instability_signals = 0;
      signal_window_start = now;
      recovering = false;
    }

-- One new signal is enough while the provider is recovering.
abbrev threshold : Policy → ProviderState → ℕ
threshold p st = if st.recovering then 1 else p.signal_threshold

-- `observeProviderInstability` on one state: the new state, and whether it is quarantined.
unfoldable pub unstable : Policy → ℕ → String → ProviderState → ProviderState × Bool
unfolding roll_window count_signal quarantine
unstable p now signal before =
    let st = record before { last_failure = now } in
    let counted = count_signal now signal (roll_window p now st) in
    if ltb now st.quarantined_until && not st.recovering
    then (record st { last_signal = signal; last_updated = now }, true)
    else if leb (threshold p counted) counted.instability_signals
    then (quarantine p now signal counted, true)
    else (counted, false)

-- `shared` is the answer of `observeSharedNetworkIncidentLocked`.
unfoldable pub observe_instability :
    Policy → Bool → Bool → ℕ → String → String → States → States × Bool
unfolding unstable
observe_instability p circuit shared now name signal m =
    if not p.enabled || not circuit || shared then (m, false) else (
      insert name (unstable p now signal (state_of name m)).0 m,
      (unstable p now signal (state_of name m)).1,
    )

unfoldable pub recover : ProviderState → ProviderState
recover st = record st {
  quarantined_until = 0;
  quarantine_reason = "";
  instability_signals = 0;
  signal_window_start = 0;
  quarantine_level = 0;
  recovery_successes = 0;
  recovering = false;
  last_signal = "";
}

-- The early returns of `observeProviderHealthyAfter`: a stale success, a quarantine that still
-- runs, or nothing to recover from.
unfoldable pub idle : ℕ → ℕ → ProviderState → Bool
idle now started st =
    (not (started == 0) && ltb started st.last_failure)
    || ltb now st.quarantined_until
    || (st.quarantine_level == 0 && st.instability_signals == 0 && not st.recovering)

-- The rest of it, on one state.
unfoldable pub healthy : Policy → ℕ → ProviderState → ProviderState
unfolding recover
healthy p now st =
    let counted = record st {
      recovery_successes = st.recovery_successes + 1;
      last_updated = now;
    } in
    if leb p.recovery_successes counted.recovery_successes then recover counted else counted

unfoldable pub observe_healthy_after : Policy → Bool → ℕ → String → ℕ → States → States
unfolding healthy idle
observe_healthy_after p circuit now name started m =
    let st = state_of name m in
    if not p.enabled || not circuit || idle now started st
    then m
    else insert name (healthy p now st) m
