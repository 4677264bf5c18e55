-- ===== src/PaidBudget/Recovery.antt =====
-- Restarts, and two ways in which the ledger does not do what it is for: a settlement of unknown
-- cost drops charges an hour early, and an edit that fails on the very first use locks the budget.
use claude_gateway.Prelude.{
  ℕ, ◌+◌, ◌≤◌, ◌<◌, ◌≡◌, ◌≢◌, refl, not, minute, subst, ◌⊎◌, inl, inr, String, true, false, none,
  some, [], ◌∷◌, All, map, lookup, insert, str_eq, str_eq_refl, arith,
}
use claude_gateway.PaidBudget.{
  Entry, Entries, Store, Disk, Result, Error, absent, ok, err, load, window, is_over,
  edit_paid_budget, recover_paid_budgets, exhausted, stored, recover, recover_entry, reserve,
  settle, replace, prune, total, attempt_lifetime,
}
use claude_gateway.PaidBudget.Sums.{total-recover, lookup-keep}
use claude_gateway.PaidBudget.Steps.{fresh_store}

lookup-recover_pending :
    (id : String) (now : ℕ) (m : Entries) (e : Entry)
    → lookup id m ≡ some e
    → e.pending ≡ true
    → lookup id (map (λ entry. (entry.0, recover_entry now entry.1)) m)
      ≡ some (record e { pending = false; at = now + attempt_lifetime })
unfolding recover_entry
lookup-recover_pending id now [] e h reserved = cc
lookup-recover_pending id now ((j, d) ∷ m) e h reserved =
    ground (arith, lookup-recover_pending id now m e)

abbrev pub NotPending : String × Entry → Type 0
NotPending c = c.1.pending ≡ false

recovered :
    (now : ℕ) (m : Entries) → All NotPending (map (λ entry. (entry.0, recover_entry now entry.1)) m)
unfolding recover_entry
recovered now [] = tt
recovered now ((id, e) ∷ m) = (ground arith, recovered now m)

amount-le-total :
    (id : String) (m : Entries) (e : Entry)
    → lookup id m ≡ some e
    → e.micro_usd ≤ total e.provider m
unfolding total
amount-le-total id [] e h = cc
amount-le-total id ((j, d) ∷ m) e h = ground (arith, str_eq_refl e.provider, amount-le-total id m e)

-- What the recovery writes for a reservation.
abbrev pub charged_at : ℕ → Entry → Entry
charged_at now e = record e { pending = false; at = now + attempt_lifetime }

-- The ledger after the recovery of the entries that are not over.
abbrev pub recovered_ledger : ℕ → Entries → Entries
recovered_ledger now m = map (λ entry. (entry.0, recover_entry now entry.1)) (prune now m)

recover_stored :
    (d : Disk) (now : ℕ) (s : Store) (m : Entries)
    → d.locks ≡ true
    → (s.marked ≡ true) ⊎ (d.marks ≡ true)
    → d.replaces ≡ true
    → load s ≡ ok m
    → (recover_paid_budgets d true now s).store
      ≡ record { marked = true; file = stored 1 (some (recovered_ledger now m)) }
unfolding recover_paid_budgets edit_paid_budget replace recover
recover_stored d now s m locks (inl marked) replaces loads = ground arith
recover_stored d now s m locks (inr marks) replaces loads = ground arith

kept_pending :
    (now : ℕ) (id : String) (m : Entries) (e : Entry)
    → lookup id m ≡ some e
    → e.pending ≡ true
    → lookup id (prune now m) ≡ some e
unfolding prune is_over
kept_pending now id m e found reserved =
    lookup-keep id (λ entry. not (is_over now entry.1)) m e found (λ j. ground arith)

kept_charge :
    (now t : ℕ) (id : String) (m : Entries) (e : Entry)
    → lookup id m ≡ some (charged_at now e)
    → t < now + attempt_lifetime + window
    → lookup id (prune t m) ≡ some (charged_at now e)
unfolding prune is_over
kept_charge now t id m e found early =
    lookup-keep id (λ entry. not (is_over t entry.1)) m (charged_at now e) found (λ j. ground arith)

refused :
    (k id p : String) (cap bound t : ℕ) (m : Entries) (e : Entry)
    → lookup id m ≡ some e
    → e.provider ≡ p
    → cap < e.micro_usd + bound
    → reserve k p cap bound t m ≡ err (exhausted (t + minute))
unfolding reserve
refused k id p cap bound t m e found same over =
    let counted : e.micro_usd ≤ total p m =
      subst (λ q. e.micro_usd ≤ total q m) same (amount-le-total id m e found) in
    ground (arith, counted)

-- The recovery of a ledger that can be read and replaced keeps the entries that are not over,
-- leaves none of them pending and changes no total of them. A reservation that was pending is
-- charged in full at a lifetime after `now`: until a window after that, a pruning of this ledger
-- keeps the charge, and a reservation of its provider that passes the cap together with the
-- charge is refused.
pub recover_charges :
    (d : Disk) (now t cap bound : ℕ) (id k p : String) (s : Store) (m : Entries) (e : Entry)
    → d.locks ≡ true
    → (s.marked ≡ true) ⊎ (d.marks ≡ true)
    → d.replaces ≡ true
    → load s ≡ ok m
    → lookup id m ≡ some e
    → e.pending ≡ true
    → t < now + attempt_lifetime + window
    → cap < e.micro_usd + bound
    → let m' = recovered_ledger now m in
      ((recover_paid_budgets d true now s).store
        ≡ record { marked = true; file = stored 1 (some m') })
      × All NotPending m'
      × (total p m' ≡ total p (prune now m))
      × (lookup id (prune t m') ≡ some (charged_at now e))
      × (reserve k e.provider cap bound t (prune t m') ≡ err (exhausted (t + minute)))
recover_charges d now t cap bound id k p s m e locks marks replaces loads found reserved early
      over =
    let charge =
      lookup-recover_pending id now (prune now m) e (kept_pending now id m e found reserved)
        reserved in
    let kept = kept_charge now t id (recovered_ledger now m) e charge early in
    (
      recover_stored d now s m locks marks replaces loads,
      recovered now (prune now m),
      total-recover p now (prune now m),
      kept,
      refused k id e.provider cap bound t (prune t (recovered_ledger now m)) (charged_at now e) kept
          refl over,
    )

-- A charge of the last 24 hours that is more than 23 hours old is forgotten when another attempt
-- is settled at its bound because its cost is unknown: right after, at the real time `now`, a
-- reservation is admitted although charge, settled bound and reservation together pass the cap.
pub settle_unknown_forgets :
    (now old spent bound more cap : ℕ) (p a b c : String)
    → old + window ≤ now + attempt_lifetime
    → now < old + window
    → 0 < bound
    → 0 < more
    → bound + more ≤ cap
    → cap < spent + bound + more
    → str_eq a b ≡ false
    → let charge : Entry = record { provider = p; at = old; micro_usd = spent; pending = false } in
      let attempt : Entry = record { provider = p; at = now; micro_usd = bound; pending = true } in
      let m : Entries = (a, charge) ∷ (b, attempt) ∷ [] in
      let settled : Entries =
        (b, record attempt { pending = false; at = now + attempt_lifetime }) ∷ [] in
      (settle b bound (now + attempt_lifetime) (prune (now + attempt_lifetime) m) ≡ ok settled)
      × ((m' : Entries) × (reserve c p cap more now (prune now settled) ≡ ok m'))
unfolding settle reserve prune total is_over
settle_unknown_forgets now old spent bound more cap p a b c early late pos pos' fits over apart = (
  ground (arith, str_eq_refl b),
  (
    insert c (record { provider = p; at = now; micro_usd = more; pending = true })
        ((
          b,
          record { provider = p; at = now + attempt_lifetime; micro_usd = bound; pending = false },
        )
          ∷ []),
    ground (arith, str_eq_refl p),
  ),
)

abbrev locked : Store
locked = record { marked = true; file = absent }

edit_first_failure :
    (now : ℕ) (d : Disk) (f : Entries → Result Entries) (e : Error)
    → d.locks ≡ true
    → d.marks ≡ true
    → (d.replaces ≡ false) ⊎ (f [] ≡ err e)
    → (edit_paid_budget d now f fresh_store).store ≡ locked
unfolding edit_paid_budget load replace prune
edit_first_failure now d f e locks marks (inl off) = ground arith
edit_first_failure now d f e locks marks (inr bad) = ground arith

edit_locked :
    (later : ℕ) (d : Disk) (g : Entries → Result Entries)
    → ((edit_paid_budget d later g locked).error ≢ none)
      × ((edit_paid_budget d later g locked).store ≡ locked)
unfolding edit_paid_budget load
edit_locked later d g = ground arith

-- If the edit of the very first call fails, or its file cannot be put in place, the mark stays
-- without a ledger, and every later call of any kind fails and changes nothing.
pub edit_first_failure_locks :
    (now later : ℕ) (d d' : Disk) (f g : Entries → Result Entries) (e : Error)
    → d.locks ≡ true
    → d.marks ≡ true
    → (d.replaces ≡ false) ⊎ (f [] ≡ err e)
    → let s = (edit_paid_budget d now f fresh_store).store in
      ((edit_paid_budget d' later g s).error ≢ none) × ((edit_paid_budget d' later g s).store ≡ s)
edit_first_failure_locks now later d d' f g e locks marks fails =
    rw (edit_first_failure now d f e locks marks fails) (edit_locked later d' g)
