-- ===== src/Network.antt =====
-- The shared network incident of anthropic-proxy.go: `normalizeNetworkIncidentLocked`,
-- `observeNetworkTransportFailure`, `beginNetworkRequest`, `finishNetworkProbe` and
-- `observeNetworkSuccess`. Whether an error is a strong local one (`strongLocalNetworkError`) and
-- the origin of a provider (`providerIncidentOrigin`) are arguments.
pub mod Probe
pub mod Confirm
use Prim.Native.Nat.{compare, Ordering}
use Prim.Native.String.{compare as compare_text}
use claude_gateway.Prelude.{
  ℕ, ◌+◌, ◌*◌, ◌%◌, ◌^◌, String, Bool, true, false, not, ◌&&◌, ◌||◌, List, [], ◌∷◌, map, length,
  keep, ltb, leb, ◌==◌, str_eq, starts_with, insert, if◌then◌else◌, second,
}
use claude_gateway.Provider.{ProviderState, States}
use claude_gateway.Provider.Quarantine.{Policy}

-- `unset` is the empty text of the zero value.
pub data Phase : Type 0 where
  unset normal suspected offline recovering : Phase

pub record Incident : Type 0 where
  pub signals : List (String × ℕ)
  pub phase : Phase
  pub suspected_at : ℕ
  pub active_until : ℕ
  pub next_probe_at : ℕ
  pub probe_in_flight : Bool
  pub epoch : ℕ
  pub last_detected : ℕ
  pub origins : List String

abbrev pub no_incident : Incident
no_incident = record {
  signals = [];
  phase = unset;
  suspected_at = 0;
  active_until = 0;
  next_probe_at = 0;
  probe_in_flight = false;
  epoch = 0;
  last_detected = 0;
  origins = [];
}

-- What `providerStateMu` guards.
pub record Shared : Type 0 where
  pub states : States
  pub incident : Incident

abbrev pub recovery_delay : ℕ
recovery_delay = 2 * second

unfoldable pub origin_threshold : Policy → ℕ
origin_threshold p = if ltb 0 p.network_incident_origins then p.network_incident_origins else 2

unfoldable pub incident_window : Policy → ℕ
incident_window p =
    (if p.network_incident_window_seconds == 0 then 15 else p.network_incident_window_seconds)
    * second

unfoldable pub incident_suppression : Policy → ℕ
incident_suppression p =
    (if p.network_incident_suppress_seconds == 0 then 90 else p.network_incident_suppress_seconds)
    * second

unfoldable pub shared_network_signal : String → Bool
shared_network_signal signal =
    str_eq signal "transport"
    || str_eq signal "ttfb_timeout"
    || str_eq signal "excessive_ttfb"
    || str_eq signal "client_disconnect_after_stall"
    || str_eq signal "stream_event_stall"
    || str_eq signal "stream_error"

-- The three steps of `normalizeNetworkIncidentLocked`.
unfoldable pub drop_old_signals : Policy → ℕ → Incident → Incident
drop_old_signals p now i = record i {
  signals = keep (λ e. leb now (e.1 + incident_window p)) i.signals;
}

abbrev pub or_normal : Phase → Phase
or_normal unset = normal
or_normal phase = phase

unfoldable pub end_suspicion : Policy → ℕ → Incident → Incident
end_suspicion p now i = elim i.phase [
  | suspected ↦
      if i.suspected_at == 0 || ltb (i.suspected_at + incident_window p) now
      then record i { phase = normal; suspected_at = 0; signals = [] }
      else i
  | _ ↦ i
]

abbrev pub is_active : Phase → Bool
is_active offline = true
is_active recovering = true
is_active _ = false

unfoldable pub end_incident : ℕ → Incident → Incident
end_incident now i =
    if is_active i.phase
      && (not (i.active_until == 0) && leb i.active_until now)
      && not i.probe_in_flight
    then record i { phase = normal; active_until = 0; next_probe_at = 0; signals = [] }
    else i

unfoldable pub normalize : Policy → ℕ → Incident → Incident
unfolding drop_old_signals end_suspicion end_incident
normalize p now i =
    let kept = drop_old_signals p now i in
    end_incident now (end_suspicion p now (record kept { phase = or_normal kept.phase }))

unfoldable pub clear_shared_signals_of : ℕ → ProviderState → ProviderState
clear_shared_signals_of now st =
    let cleared = record st {
      quarantined_until = 0;
      quarantine_reason = "";
      instability_signals = 0;
      signal_window_start = 0;
      quarantine_level = 0;
      recovery_successes = 0;
      recovering = false;
      last_signal = "";
      last_updated = now;
    } in
    if not (shared_network_signal st.quarantine_reason)
      && not (shared_network_signal st.last_signal)
    then st
    else if starts_with st.reason "instability_"
    then record cleared { blocked_until = 0; reason = "" }
    else cleared

unfoldable pub clear_shared_signals : ℕ → States → States
unfolding clear_shared_signals_of
clear_shared_signals now m = map (λ e. (e.0, clear_shared_signals_of now e.1)) m

-- `sort.Strings`
insert_sorted : String → List String → List String
insert_sorted s [] = s ∷ []
insert_sorted s (t ∷ ts) = elim (compare_text s t) [
  | Ordering.gt ↦ t ∷ insert_sorted s ts
  | _ ↦ s ∷ t ∷ ts
]

unfoldable pub sort_texts : List String → List String
unfolding insert_sorted
sort_texts [] = []
sort_texts (s ∷ ss) = insert_sorted s (sort_texts ss)

-- `observeSharedNetworkIncidentLocked`
unfoldable pub observe_shared : Policy → ℕ → String → Incident → Incident × Bool
observe_shared p now signal i =
    if shared_network_signal signal
    then (normalize p now i, is_active (normalize p now i).phase)
    else (i, false)

pub record Decision : Type 0 where
  pub suppress_provider_penalty : Bool
  pub stop_fallback : Bool

abbrev is_normal : Phase → Bool
is_normal normal = true
is_normal _ = false

abbrev is_suspected : Phase → Bool
is_suspected suspected = true
is_suspected _ = false

unfoldable pub suspect : ℕ → Incident → Incident
suspect now i =
    if is_normal i.phase
    then record i { phase = suspected; suspected_at = now; epoch = (i.epoch + 1) % 2 ^ 64 }
    else i

unfoldable pub confirm : Policy → ℕ → Incident → Incident
confirm p now i = record i {
  phase = offline;
  active_until = now + incident_suppression p;
  next_probe_at = now + recovery_delay;
  probe_in_flight = false;
  last_detected = now;
  origins = sort_texts (map (λ e. e.0) i.signals);
}

unfoldable pub transport_failure : Policy → Bool → ℕ → String → Shared → Shared × Decision
transport_failure p strong now origin s =
    let seen = normalize p now s.incident in
    let heard = record seen { signals = insert origin now seen.signals } in
    let i = suspect now heard in
    if not strong
    then (s, record { suppress_provider_penalty = false; stop_fallback = false })
    else if is_active heard.phase
    then (
      record s { incident = heard },
      record { suppress_provider_penalty = true; stop_fallback = true },
    )
    else if leb (origin_threshold p) (length i.signals)
    then (
      record { states = clear_shared_signals now s.states; incident = confirm p now i },
      record { suppress_provider_penalty = true; stop_fallback = true },
    )
    else (
      record s { incident = i },
      record { suppress_provider_penalty = is_suspected i.phase; stop_fallback = false },
    )

-- Whether a request may go on, and whether it is the probe.
pub data Admission : Type 0 where
  go probe retry_later : Admission

unfoldable pub begin_request : Policy → ℕ → Incident → Incident × Admission
begin_request p now i0 =
    let i = normalize p now i0 in
    elim i.phase [
      | offline ↦
          if i.probe_in_flight || ltb now i.next_probe_at
          then (i, retry_later)
          else (record i { phase = recovering; probe_in_flight = true }, probe)
      | recovering ↦ (i, retry_later)
      | _ ↦ (i, go)
    ]

abbrev pub is_recovering : Phase → Bool
is_recovering recovering = true
is_recovering _ = false

unfoldable pub finish_probe : Bool → Bool → ℕ → Incident → Incident
finish_probe is_probe success now i =
    if not is_probe || success
    then i
    else if is_recovering i.phase
    then record i { phase = offline; probe_in_flight = false; next_probe_at = now + recovery_delay }
    else i

unfoldable pub observe_success : Incident → Incident
observe_success i = elim (or_normal i.phase) [
  | normal ↦ i
  | _ ↦ record i {
    phase = normal;
    suspected_at = 0;
    active_until = 0;
    next_probe_at = 0;
    probe_in_flight = false;
    signals = [];
  }
]
