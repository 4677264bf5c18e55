-- ===== src/Provider.antt =====
-- The runtime state of the providers in anthropic-proxy.go: `providerRuntimeState`, hard blocks
-- (`providerBlocked`, `markProviderBlocked`, `clearProviderBlockAfter` and the other clearing
-- functions). One call reads the clock once. Logs and recorded events are left out.
pub mod Quarantine
pub mod Blocks
pub mod Escalation
pub mod Relapse
use Prim.Native.String.{◌++◌ as append}
use text.Mathlib.Text.{find?}
use claude_gateway.Prelude.{
  ℕ, ◌+◌, String, Bool, true, false, not, ◌&&◌, ◌||◌, Option, none, some, List, [], ltb, leb, ◌==◌,
  str_eq, starts_with, lookup, insert, if◌then◌else◌, minute,
}

pub record ProviderState : Type 0 where
  pub quota_probe_at : ℕ
  pub quota_probe_in_flight : Bool
  pub last_failure : ℕ
  pub blocked_until : ℕ
  pub reason : String
  pub last_updated : ℕ
  pub rate_limit_info : List (String × String)
  pub quarantined_until : ℕ
  pub quarantine_reason : String
  pub instability_signals : ℕ
  pub signal_window_start : ℕ
  pub quarantine_level : ℕ
  pub recovery_successes : ℕ
  pub recovering : Bool
  pub last_signal : String

-- The zero value, which a missing map entry reads as.
abbrev pub no_state : ProviderState
no_state = record {
  quota_probe_at = 0;
  quota_probe_in_flight = false;
  last_failure = 0;
  blocked_until = 0;
  reason = "";
  last_updated = 0;
  rate_limit_info = [];
  quarantined_until = 0;
  quarantine_reason = "";
  instability_signals = 0;
  signal_window_start = 0;
  quarantine_level = 0;
  recovery_successes = 0;
  recovering = false;
  last_signal = "";
}

abbrev pub States : Type 0
States = List (String × ProviderState)

abbrev or_no_state : Option ProviderState → ProviderState
or_no_state none = no_state
or_no_state (some st) = st

abbrev pub state_of : String → States → ProviderState
state_of name m = or_no_state (lookup name m)

-- `strings.Contains`
abbrev pub contains : String → String → Bool
contains s t = elim (find? s t) [ none ↦ false | some _ ↦ true ]

unfoldable pub expire_block : ℕ → ProviderState → ProviderState
expire_block now st =
    if not (st.blocked_until == 0) && leb st.blocked_until now
    then record st { blocked_until = 0; reason = "" }
    else st

unfoldable pub expire_quarantine : ℕ → ProviderState → ProviderState
expire_quarantine now st =
    if not (st.quarantined_until == 0) && leb st.quarantined_until now
    then record st { quarantined_until = 0; recovering = true }
    else st

-- What `providerBlocked` writes back.
unfoldable pub expire : ℕ → ProviderState → ProviderState
unfolding expire_block expire_quarantine
expire now st = expire_quarantine now (expire_block now st)

-- What it returns: a quarantine shows as the block if it lasts longer.
unfoldable pub report : ProviderState → Bool × ProviderState
report st =
    if st.quarantined_until == 0
    then (not (st.blocked_until == 0), st)
    else if st.blocked_until == 0 || ltb st.blocked_until st.quarantined_until
    then (
      true,
      record st {
        blocked_until = st.quarantined_until;
        reason = append "instability_" st.quarantine_reason;
      },
    )
    else (true, st)

unfoldable pub provider_blocked : ℕ → String → States → (Bool × ProviderState) × States
unfolding expire report
provider_blocked now name m = elim (lookup name m) [
  | none ↦ ((false, no_state), m)
  | some st ↦ (report (expire now st), insert name (expire now st) m)
]

-- A duration that is not positive, 0 here, is a minute.
abbrev pub or_minute : ℕ → ℕ
or_minute duration = if duration == 0 then minute else duration

unfoldable pub mark_state : ℕ → String → ℕ → ProviderState → ProviderState
mark_state now reason duration st =
    let until = now + or_minute duration in
    let st' =
      if ltb st.blocked_until until
      then record st { blocked_until = until; reason = reason }
      else st in
    record st' { last_updated = now; last_failure = now }

unfoldable pub mark_changed : ℕ → String → ProviderState → Bool
mark_changed now reason st =
    st.blocked_until == 0 || not (str_eq st.reason reason) || ltb st.blocked_until now

unfoldable pub mark_provider_blocked : ℕ → String → String → ℕ → States → States × Bool
unfolding mark_state mark_changed
mark_provider_blocked now name reason duration m =
    let st = state_of name m in
    (insert name (mark_state now reason duration st) m, mark_changed now reason st)

-- The block is lifted; the rest stays.
unfoldable pub unblock : ℕ → ProviderState → ProviderState
unblock now st = record st { blocked_until = 0; reason = ""; last_updated = now }

-- A success is older than the last failure, or proves nothing about credentials or quota.
unfoldable pub keeps_block : ℕ → ProviderState → Bool
keeps_block started st =
    not (started == 0)
    && (ltb started st.last_failure
        || starts_with st.reason "auth_"
        || contains st.reason "quota"
        || str_eq st.reason "quota_or_rate_limit")

unfoldable pub usage_block : ProviderState → Bool
usage_block st = starts_with st.reason "ollama_usage_" || starts_with st.reason "cline_usage_"

-- `started` is 0 for `clearProviderBlock`.
unfoldable pub clear_provider_block_after : ℕ → String → ℕ → States → States
unfolding unblock keeps_block usage_block
clear_provider_block_after now name started m =
    let st = state_of name m in
    if keeps_block started st || usage_block st then m else insert name (unblock now st) m

-- `started` is `none` where the caller gives no start.
unfoldable pub clear_profile_auth_block : ℕ → String → Option ℕ → States → States × Bool
unfolding unblock
clear_profile_auth_block now name started m =
    let st = state_of name m in
    let stale : Bool = elim started [ none ↦ false | some t ↦ ltb t st.last_failure ] in
    if stale || not (starts_with st.reason "auth_")
    then (m, false)
    else (insert name (unblock now st) m, true)

unfoldable pub clear_ollama_usage_block : ℕ → String → States → States
unfolding unblock
clear_ollama_usage_block now name m =
    let st = state_of name m in
    if starts_with st.reason "ollama_usage_" then insert name (unblock now st) m else m

unfoldable pub clear_cline_usage_block : ℕ → String → States → States
unfolding unblock
clear_cline_usage_block now name m =
    let st = state_of name m in
    if starts_with st.reason "cline_usage_" then insert name (unblock now st) m else m
