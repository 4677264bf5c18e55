-- ===== src/PaidBudget/Solvency.antt =====
-- No provider's reservations and charges pass its cap.
use claude_gateway.Prelude.{
  ℕ, ◌≤◌, ◌≡◌, subst, sym, inl, inr, String, Option-cases, List, [], ◌∷◌, lookup, eq_iff, not, true,
  false, arith,
}
use claude_gateway.PaidBudget.{
  Entries, Store, Disk, Result, is_over, edit_paid_budget, ok, recover, reserve, settle, prune,
  total, recover_paid_budgets, reserve_paid_budget, settle_paid_budget,
}
use claude_gateway.PaidBudget.Sums.{total-keep-le, total-insert, total-erase-le, total-recover}
use claude_gateway.PaidBudget.Steps.{
  Call, recovers, reserves, settles, edit-Edited, Ledger, entries_of, outcome, step, run,
  fresh_ledger,
}

abbrev pub IsSolvent : (String → ℕ) → Entries → Type 0
IsSolvent caps m = (p : String) → total p m ≤ caps p

-- The edit `f` keeps every total within the caps.
abbrev Keeps : (String → ℕ) → (Entries → Result Entries) → Type 0
Keeps caps f = (m m' : Entries) → IsSolvent caps m → f m ≡ ok m' → IsSolvent caps m'

prune-IsSolvent :
    (caps : String → ℕ) (now : ℕ) (m : Entries) → IsSolvent caps m → IsSolvent caps (prune now m)
unfolding prune
prune-IsSolvent caps now m h p =
    omega (arith, total-keep-le p (λ entry. not (is_over now entry.1)) m, h p)

edit-IsSolvent :
    (caps : String → ℕ) (d : Disk) (now : ℕ) (f : Entries → Result Entries) (s : Store)
    → Keeps caps f
    → IsSolvent caps (entries_of s)
    → IsSolvent caps (entries_of (edit_paid_budget d now f s).store)
edit-IsSolvent caps d now f s k h p = elim (edit-Edited d now f s) [
  | inl (same, _) ↦ subst (λ x. total p x ≤ caps p) (sym same) (h p)
  | inr (m', e, new) ↦
      subst (λ x. total p x ≤ caps p) (sym new)
        (k (prune now (entries_of s)) m' (prune-IsSolvent caps now (entries_of s) h) e p)
]

recover-Keeps : (caps : String → ℕ) (now : ℕ) → Keeps caps (recover now)
unfolding recover
recover-Keeps caps now m m' h e p = ground (arith, total-recover p now m, h p)

reserve-Keeps :
    (caps : String → ℕ) (id p : String) (bound now : ℕ)
    → Keeps caps (reserve id p (caps p) bound now)
unfolding reserve
reserve-Keeps caps id p bound now m m' h e q = ground (
  arith,
  h q,
  total-insert q id (record { provider = p; at = now; micro_usd = bound; pending = true }) m,
  eq_iff p q,
)

settle-Keeps : (caps : String → ℕ) (id : String) (cost now : ℕ) → Keeps caps (settle id cost now)
unfolding settle
settle-Keeps caps id cost now m m' h e p = elim (Option-cases (lookup id m)) [
  | inl missing ↦ ground arith
  | inr (d, found) ↦ ground (
    arith,
    h p,
    total-insert p id (record d { pending = false; micro_usd = cost; at = now }) m,
    total-erase-le p id m,
  )
]

step-IsSolvent :
    (caps : String → ℕ) (c : Disk × ℕ × Call) (l : Ledger)
    → IsSolvent caps (entries_of l.store)
    → IsSolvent caps (entries_of (step caps c l).store)
unfolding step outcome recover_paid_budgets reserve_paid_budget settle_paid_budget
step-IsSolvent caps (d, now, recovers true) l h =
    edit-IsSolvent caps d now _ l.store (recover-Keeps caps now) h
step-IsSolvent caps (d, now, recovers false) l h = h
step-IsSolvent caps (d, now, reserves id p bound) l h =
    edit-IsSolvent caps d now _ l.store (reserve-Keeps caps id p bound now) h
step-IsSolvent caps (d, now, settles id cost at) l h =
    edit-IsSolvent caps d at _ l.store (settle-Keeps caps id cost at) h

pub run-IsSolvent :
    (caps : String → ℕ) (cs : List (Disk × ℕ × Call)) (l : Ledger)
    → IsSolvent caps (entries_of l.store)
    → IsSolvent caps (entries_of (run caps cs l).store)
unfolding run
run-IsSolvent caps [] l h = h
run-IsSolvent caps (c ∷ cs) l h = run-IsSolvent caps cs (step caps c l) (step-IsSolvent caps c l h)

-- Whatever calls the processes make, in whatever order, at whatever times, and whichever of their
-- disk operations fail: what the ledger holds for a provider, reserved and charged, is within its
-- cap.
pub run-fresh-IsSolvent :
    (caps : String → ℕ) (cs : List (Disk × ℕ × Call))
    → IsSolvent caps (entries_of (run caps cs fresh_ledger).store)
unfolding total
run-fresh-IsSolvent caps cs = run-IsSolvent caps cs fresh_ledger (λ p. omega arith)
