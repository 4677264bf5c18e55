-- ===== src/Tests/Budgets.antt =====
-- The paid budget on concrete ledgers.
use claude_gateway.Prelude.{
  ℕ, ◌+◌, ◌*◌, ◌≤◌, ◌≡◌, ◌≢◌, refl, inl, String, true, false, none, some, List, [], ◌∷◌, All,
  lookup, hour, minute, arith,
}
use claude_gateway.PaidBudget.{
  Entry, Entries, Disk, Store, stored, err, exhausted, ok, settle, reserve, recover, recover_entry,
  prune, total, is_over, edit_paid_budget, recover_paid_budgets, reserve_paid_budget,
  settle_paid_budget, load, replace, any_bad, is_bad, attempt_lifetime,
}
use claude_gateway.PaidBudget.Steps.{
  Call, recovers, reserves, settles, entries_of, fresh_store, fresh_ledger, step, run, outcome,
  logs,
}
use claude_gateway.PaidBudget.Solvency.{IsSolvent, run-fresh-IsSolvent}
use claude_gateway.PaidBudget.Window.{charged, charged-run-le}
use claude_gateway.PaidBudget.Recovery.{
  NotPending, charged_at, recovered_ledger, recover_charges, settle_unknown_forgets,
  edit_first_failure_locks,
}

abbrev works : Disk
works = record { locks = true; marks = true; leaves_mark = true; replaces = true; syncs = true }

abbrev full : Disk
full = record { locks = true; marks = true; leaves_mark = true; replaces = false; syncs = true }

abbrev caps : String → ℕ
caps p = 1000

abbrev calls : List (Disk × ℕ × Call)
calls =
    (works, 1, recovers true)
    ∷ (works, 10, reserves "a" "paid" 600)
    ∷ (works, 20, reserves "b" "paid" 600)
    ∷ (works, 30, settles "a" 500 30)
    ∷ (works, 40, reserves "c" "paid" 500)
    ∷ []

-- The second reservation is refused, and the third fits once the first is settled.
calls-run :
    (run caps calls fresh_ledger).log
    ≡ ("a", record { provider = "paid"; at = 30; micro_usd = 500; pending = false }) ∷ []
unfolding run step outcome logs recover_paid_budgets reserve_paid_budget settle_paid_budget
    edit_paid_budget load replace prune recover recover_entry reserve settle total is_over any_bad
    is_bad
calls-run = refl

run-fresh-IsSolvent_example : IsSolvent caps (entries_of (run caps calls fresh_ledger).store)
run-fresh-IsSolvent_example = run-fresh-IsSolvent caps calls

charged-run-le_example : charged "paid" 0 (run caps calls fresh_ledger).log ≤ 1000
unfolding run step outcome logs recover_paid_budgets reserve_paid_budget settle_paid_budget
    edit_paid_budget load replace prune recover recover_entry reserve settle total is_over any_bad
    is_bad
charged-run-le_example =
    charged-run-le caps calls "paid" 0
      (
        omega arith,
        tt,
        (
          omega arith,
          refl,
          (
            omega arith,
            refl,
            (omega arith, (omega arith, omega arith, refl), (omega arith, refl, tt)),
          ),
        ),
      )
      (omega arith)

abbrev open_entry : Entry
open_entry = record { provider = "paid"; at = 10; micro_usd = 600; pending = true }

abbrev open_store : Store
open_store = record { marked = true; file = stored 1 (some (("a", open_entry) ∷ [])) }

-- A reservation of 600 at the cap of 1000, and one of 500 a day later.
recover_charges_example :
    let m' = recovered_ledger 20 (("a", open_entry) ∷ []) in
    ((recover_paid_budgets works true 20 open_store).store
      ≡ record { marked = true; file = stored 1 (some m') })
    × All NotPending m'
    × (total "paid" m' ≡ total "paid" (prune 20 (("a", open_entry) ∷ [])))
    × (lookup "a" (prune (24 * hour) m') ≡ some (charged_at 20 open_entry))
    × (reserve "b" "paid" 1000 500 (24 * hour) (prune (24 * hour) m')
        ≡ err (exhausted (24 * hour + minute)))
unfolding load any_bad is_bad
recover_charges_example =
    recover_charges works 20 (24 * hour) 1000 500 "a" "b" "paid" open_store (("a", open_entry) ∷ [])
      open_entry refl (inl refl) refl refl refl refl (omega arith) (omega arith)

-- A charge of 900 half an hour before its window ends, and an attempt of 100.
abbrev now : ℕ
now = 10 + 23 * hour + 30 * minute

settle_unknown_forgets_example :
    let charge : Entry = record { provider = "paid"; at = 10; micro_usd = 900; pending = false } in
    let attempt : Entry = record { provider = "paid"; at = now; micro_usd = 100; pending = true } in
    let m : Entries = ("a", charge) ∷ ("b", attempt) ∷ [] in
    let settled : Entries =
      ("b", record attempt { pending = false; at = now + attempt_lifetime }) ∷ [] in
    (settle "b" 100 (now + attempt_lifetime) (prune (now + attempt_lifetime) m) ≡ ok settled)
    × ((m' : Entries) × (reserve "c" "paid" 1000 900 now (prune now settled) ≡ ok m'))
settle_unknown_forgets_example =
    settle_unknown_forgets now 10 900 100 900 1000 "paid" "a" "b" "c" (omega arith) (omega arith)
      (omega arith) (omega arith) (omega arith) (omega arith) refl

edit_first_failure_locks_example :
    let s = (edit_paid_budget full 5 (recover 5) fresh_store).store in
    ((edit_paid_budget works 9 (recover 9) s).error ≢ none)
    × ((edit_paid_budget works 9 (recover 9) s).store ≡ s)
edit_first_failure_locks_example =
    edit_first_failure_locks 5 9 full works (recover 5) (recover 9) (exhausted 0) refl refl
      (inl refl)
