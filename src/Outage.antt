-- ===== src/Outage.antt =====
-- The detection of a provider outage that arms the paid fallback, of anthropic-proxy.go:
-- `observeClaudeServiceFailure` and `clearClaudeServiceFailures`. The settings are the seconds and
-- the count of the configuration; a setting that is not positive there is 0 here.
pub mod Arming
use claude_gateway.Prelude.{
  ℕ, ◌+◌, ◌*◌, Bool, true, false, List, [], ◌∷◌, ◌++◌, keep, length, ltb, leb, ◌==◌, if◌then◌else◌,
  second,
}

pub record Settings : Type 0 where
  pub window_seconds : ℕ
  pub min_failures : ℕ
  pub active_seconds : ℕ

pub record Outage : Type 0 where
  pub signals : List ℕ
  pub active_until : ℕ

abbrev pub or_default : ℕ → ℕ → ℕ
or_default n d = if n == 0 then d else n

unfoldable pub outage_window : Settings → ℕ
outage_window c = or_default c.window_seconds 120 * second

unfoldable pub minimum : Settings → ℕ
minimum c = or_default c.min_failures 3

unfoldable pub active_time : Settings → ℕ
active_time c = or_default c.active_seconds 300 * second

unfoldable pub recent : Settings → ℕ → List ℕ → List ℕ
recent c now signals = keep (λ t. leb now (t + outage_window c)) signals ++ now ∷ []

unfoldable pub observe_failure : Settings → ℕ → Outage → Outage × Bool
observe_failure c now o =
    if ltb now o.active_until
    then (o, true)
    else let signals = recent c now o.signals in
      if ltb (length signals) (minimum c)
      then (record o { signals = signals }, false)
      else (record { signals = []; active_until = now + active_time c }, true)

unfoldable pub clear_failures : Outage → Outage
clear_failures o = record o { signals = []; active_until = 0 }
