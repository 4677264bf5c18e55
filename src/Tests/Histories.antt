-- ===== src/Tests/Histories.antt =====
-- Runs of the worker histories, and the theorem about them applied.
use claude_gateway.Prelude.{ℕ, ◌*◌, minute, List, [], ◌∷◌, ◌≡◌, refl}
use claude_gateway.WorkerHistory.{Snapshot, last, remember, history_of, remember_worker_usage}
use claude_gateway.WorkerHistory.Bound.{remember_all, IsBrief, remember_all-IsBrief}

abbrev fetched : ℕ → Snapshot
fetched at = record { source = "oauth-api"; profile = "main"; fetched_at = at }

abbrev snapshots : List Snapshot
snapshots =
    fetched (1 * minute) ∷ fetched (3 * minute) ∷ fetched (7 * minute) ∷ fetched (35 * minute) ∷ []

old_ones_forgotten :
    history_of "main" (remember_all snapshots [])
    ≡ fetched (7 * minute) ∷ fetched (35 * minute) ∷ []
unfolding last remember history_of remember_worker_usage remember_all
old_ones_forgotten = refl

remember_all-IsBrief_example : IsBrief (history_of "main" (remember_all snapshots []))
remember_all-IsBrief_example = remember_all-IsBrief snapshots "main"
