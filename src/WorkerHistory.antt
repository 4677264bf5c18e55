-- ===== src/WorkerHistory.antt =====
-- The usage snapshots that a worker budget remembers, of worker_budget.go:
-- `rememberWorkerUsageLocked`. A time is in nanoseconds, and the map holds one history for each
-- profile, the newest snapshot last.
pub mod Bound
use claude_gateway.Prelude.{
  ℕ, ◌+◌, ◌*◌, String, Bool, true, false, not, ◌||◌, Option, none, some, List, [], ◌∷◌, ◌++◌, ltb,
  leb, str_eq, lookup, insert, keep, minute, if◌then◌else◌,
}

pub record Snapshot : Type 0 where
  pub source : String
  pub profile : String
  pub fetched_at : ℕ

abbrev pub History : Type 0
History = List Snapshot

unfoldable pub last : History → Option Snapshot
last [] = none
last (s ∷ rest) = elim rest [ [] ↦ some s | t ∷ more ↦ last rest ]

-- `s.FetchedAt.Sub(old.FetchedAt) <= 30*time.Minute`
abbrev pub is_recent : Snapshot → Snapshot → Bool
is_recent s old = leb s.fetched_at (old.fetched_at + 30 * minute)

abbrev pub too_soon : Snapshot → Option Snapshot → Bool
too_soon s none = false
too_soon s (some old) = ltb s.fetched_at (old.fetched_at + 5 * minute)

unfoldable pub remember : Snapshot → History → History
remember s history =
    if too_soon s (last history) then history else keep (is_recent s) history ++ s ∷ []

unfoldable pub history_of : String → List (String × History) → History
history_of profile table = elim (lookup profile table) [ none ↦ [] | some history ↦ history ]

unfoldable pub remember_worker_usage : Snapshot → List (String × History) → List (String × History)
remember_worker_usage s table =
    if not (str_eq s.source "oauth-api") || str_eq s.profile ""
    then table
    else insert s.profile (remember s (history_of s.profile table)) table
