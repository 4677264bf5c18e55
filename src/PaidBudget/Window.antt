-- ===== src/PaidBudget/Window.antt =====
-- The charges of a rolling window. A settlement whose cost is unknown passes a time one lifetime
-- ahead, and the edit drops old entries by that time: the window that holds is 23 hours.
use claude_gateway.Prelude.{
  lookup-erase, ℕ, ◌+◌, ◌*◌, ◌≤◌, ◌≡◌, ◌≢◌, refl, subst, sym, ◌⊎◌, inl, inr, String, true, false,
  not, Option-cases, Bool-cases, none, some, List, [], ◌∷◌, All, keep, ltb, lookup, insert, erase,
  lookup-insert, str_eq_refl, eq_iff, hour, arith,
}
use claude_gateway.PaidBudget.{
  window, Entry, Entries, Store, Disk, Result, Outcome, ok, is_over, edit_paid_budget, recover,
  reserve, settle, prune, total, recover_paid_budgets, reserve_paid_budget, settle_paid_budget,
  attempt_lifetime,
}
use claude_gateway.PaidBudget.Sums.{total-erase-le, lookup-keep, lookup-recover}
use claude_gateway.PaidBudget.Steps.{
  Call, recovers, reserves, settles, edit-Edited, Ledger, entries_of, outcome, log_after, logs,
  step, run, fresh_ledger,
}
use claude_gateway.PaidBudget.Solvency.{run-fresh-IsSolvent}

abbrev pub sure_window : ℕ
sure_window = 23 * hour

-- A charge that is not yet over is still in the ledger as it was settled.
abbrev Held : ℕ → Entries → String × Entry → Type 0
Held t m c = (c.1.at + sure_window ≤ t) ⊎ (lookup c.0 m ≡ some c.1)

abbrev Distinct : Entries → Type 0
Distinct [] = Unit
Distinct (c ∷ log) = (lookup c.0 log ≡ none) × Distinct log

abbrev Settled : Entries → Type 0
Settled log = All (λ c. c.1.pending ≡ false) log

-- The charges of a provider after `since`.
unfoldable pub charged : String → ℕ → Entries → ℕ
charged p since log = total p (keep (λ c. ltb since c.1.at) log)

Held-erase :
    (t : ℕ) (id : String) (m log : Entries)
    → lookup id log ≡ none
    → All (Held t m) log
    → All (Held t (erase id m)) log
Held-erase t id m [] out h = tt
Held-erase t id m ((j, e) ∷ log) out h = (
  ground (arith, lookup-erase id j m, eq_iff id j, str_eq_refl id),
  Held-erase t id m log (ground arith) h.1,
)

charged-le :
    (p : String) (t since : ℕ) (m log : Entries)
    → t ≤ since + sure_window
    → Distinct log
    → All (Held t m) log
    → charged p since log ≤ total p m
unfolding charged total
charged-le p t since m [] near d h = omega arith
charged-le p t since m ((id, e) ∷ log) near d h = ground (
  arith,
  charged-le p t since (erase id m) log near d.1 (Held-erase t id m log d.0 h.1),
  charged-le p t since m log near d.1 h.1,
  total-erase-le p id m,
)

Held-later : (t u : ℕ) (m log : Entries) → t ≤ u → All (Held t m) log → All (Held u m) log
Held-later t u m [] le h = tt
Held-later t u m (c ∷ log) le h = (ground arith, Held-later t u m log le h.1)

is_over_since : (at : ℕ) (e : Entry) → is_over at e ≡ true → e.at + window ≤ at
unfolding is_over
is_over_since at e h = ground arith

-- Dropping old entries at a time that is not more than a lifetime ahead.
Held-prune :
    (now at : ℕ) (m log : Entries)
    → at ≤ now + attempt_lifetime
    → Settled log
    → All (Held now m) log
    → All (Held now (prune at m)) log
unfolding prune
Held-prune now at m [] ahead s h = tt
Held-prune now at m ((id, e) ∷ log) ahead s h = (held h.0, Held-prune now at m log ahead s.1 h.1)
  where
    held : Held now m (id, e) → Held now (prune at m) (id, e)
    held (inl old) = inl old
    held (inr found) = elim (Bool-cases (is_over at e)) [
      | inl over ↦ inl (omega (arith, is_over_since at e over))
      | inr alive ↦
          inr (lookup-keep id (λ entry. not (is_over at entry.1)) m e found (λ j. rw alive refl))
    ]

Held-insert :
    (t : ℕ) (id : String) (e : Entry) (m log : Entries)
    → lookup id log ≡ none
    → All (Held t m) log
    → All (Held t (insert id e m)) log
Held-insert t id e m [] out h = tt
Held-insert t id e m ((j, d) ∷ log) out h = (
  ground (arith, lookup-insert id j e m, eq_iff id j, str_eq_refl id),
  Held-insert t id e m log (ground arith) h.1,
)

Held-recover :
    (t now : ℕ) (m m' log : Entries)
    → recover now m ≡ ok m'
    → Settled log
    → All (Held t m) log
    → All (Held t m') log
unfolding recover
Held-recover t now m m' [] e s h = tt
Held-recover t now m m' ((id, d) ∷ log) e s h =
    (ground (arith, lookup-recover id now m d), Held-recover t now m m' log e s.1 h.1)

reserve-insert :
    (id p : String) (cap bound now : ℕ) (m m' : Entries)
    → reserve id p cap bound now m ≡ ok m'
    → insert id (record { provider = p; at = now; micro_usd = bound; pending = true }) m ≡ m'
unfolding reserve
reserve-insert id p cap bound now m m' e = ground arith

settle_cases :
    (id : String) (cost at : ℕ) (m m' : Entries)
    → settle id cost at m ≡ ok m'
    → (d : Entry) × (lookup id m ≡ some d)
      × (((cost ≡ 0) × (erase id m ≡ m'))
          ⊎ ((cost ≢ 0)
              × (insert id (record d { pending = false; micro_usd = cost; at = at }) m ≡ m')))
unfolding settle
settle_cases id cost at m m' e = elim (Option-cases (lookup id m)) [
  | inl missing ↦ absurd (ground arith)
  | inr (d, found) ↦ (d, found, ground arith)
]

Held-settle :
    (t : ℕ) (id : String) (cost at : ℕ) (m m' log : Entries)
    → settle id cost at m ≡ ok m'
    → lookup id log ≡ none
    → All (Held t m) log
    → All (Held t m') log
Held-settle t id cost at m m' log e out h =
    let (d, found, cases) = settle_cases id cost at m m' e in
    elim cases [
      | inl (free, gone) ↦ subst (λ x. All (Held t x) log) gone (Held-erase t id m log out h)
      | inr (paid, new) ↦ subst (λ x. All (Held t x) log) new (Held-insert t id _ m log out h)
    ]

pub record Inv (t : ℕ) (m log : Entries) : Type 0 where
  pub held : All (Held t m) log
  pub settled : Settled log
  pub distinct : Distinct log

-- An edit by `f` that keeps what is held, at a time `at` for the dropping.
edit-Held :
    (d : Disk) (now at : ℕ) (f : Entries → Result Entries) (s : Store) (log : Entries)
    → at ≤ now + attempt_lifetime
    → ((m m' : Entries) → f m ≡ ok m' → All (Held now m) log → All (Held now m') log)
    → Settled log
    → All (Held now (entries_of s)) log
    → All (Held now (entries_of (edit_paid_budget d at f s).store)) log
edit-Held d now at f s log ahead k settled h = elim (edit-Edited d at f s) [
  | inl (same, _) ↦ subst (λ x. All (Held now x) log) (sym same) h
  | inr (m', e, new) ↦
      subst (λ x. All (Held now x) log) (sym new)
        (k (prune at (entries_of s)) m' e (Held-prune now at (entries_of s) log ahead settled h))
]

-- The charge that a successful settlement logs is in the ledger.
charge-Held :
    (d : Disk) (id : String) (cost at : ℕ) (s : Store)
    → (settle_paid_budget d id cost at s).error ≡ none
    → cost ≢ 0
    → (e : Entry) × (lookup id (prune at (entries_of s)) ≡ some e)
      × (lookup id (entries_of (settle_paid_budget d id cost at s).store)
          ≡ some (record e { pending = false; micro_usd = cost; at = at }))
unfolding settle_paid_budget
charge-Held d id cost at s fine paid = elim (edit-Edited d at (settle id cost at) s) [
  | inl (_, (e, bad)) ↦ absurd (cc)
  | inr (m', e, new) ↦
      let (c, found, cases) = settle_cases id cost at (prune at (entries_of s)) m' e in
      elim cases [
        | inl (free, _) ↦ absurd (paid free)
        | inr (_, inserted) ↦ (c, found, rw (new, ← inserted, lookup-insert, str_eq_refl) refl)
      ]
]

-- What a caller does: the clock does not go back, identifiers are not used again once they are
-- settled, and a settlement is dated now or up to a lifetime ahead.
abbrev pub Admissible : ℕ → Call → Entries → Type 0
Admissible now (recovers enabled) log = Unit
Admissible now (reserves id p bound) log = lookup id log ≡ none
Admissible now (settles id cost at) log =
    (now ≤ at) × (at ≤ now + attempt_lifetime) × (lookup id log ≡ none)

abbrev pub IsProper : (String → ℕ) → ℕ → List (Disk × ℕ × Call) → Ledger → Type 0
IsProper caps t [] l = Unit
IsProper caps t ((d, now, call) ∷ cs) l =
    (t ≤ now) × Admissible now call l.log × IsProper caps now cs (step caps (d, now, call) l)

logs_cases : (cost : ℕ) (o : Outcome) → logs cost o ≡ true → (o.error ≡ none) × (cost ≢ 0)
unfolding logs
logs_cases cost o h = ground arith

settles-Inv :
    (d : Disk) (id : String) (cost now at : ℕ) (s : Store) (log : Entries)
    → Admissible now (settles id cost at) log
    → Inv now (entries_of s) log
    → Inv now
        (entries_of (settle_paid_budget d id cost at s).store)
        (log_after (settles id cost at) s (settle_paid_budget d id cost at s) log)
unfolding settle_paid_budget
settles-Inv d id cost now at s log call v =
    let o = settle_paid_budget d id cost at s in
    let held : All (Held now (entries_of o.store)) log =
      edit-Held d now at (settle id cost at) s log call.1
        (λ m m' e. Held-settle now id cost at m m' log e call.2) v.settled v.held in
    elim (Bool-cases (logs cost o)) [
      | inr quiet ↦ rw quiet (record { held = held; settled = v.settled; distinct = v.distinct })
      | inl logged ↦
          let (c, found, stored) =
            charge-Held d id cost at s (logs_cases cost o logged).0 (logs_cases cost o logged).1 in
          rw (logged, found)
            (record {
              held = (inr stored, held);
              settled = (refl, v.settled);
              distinct = (call.2, v.distinct);
            })
    ]

step-Inv :
    (caps : String → ℕ) (d : Disk) (t now : ℕ) (call : Call) (l : Ledger)
    → t ≤ now
    → Admissible now call l.log
    → Inv t (entries_of l.store) l.log
    → let l' = step caps (d, now, call) l in Inv now (entries_of l'.store) l'.log
unfolding step outcome recover_paid_budgets reserve_paid_budget
step-Inv caps d t now (recovers true) l le call v = record {
  held =
      edit-Held d now now (recover now) l.store l.log (omega arith)
        (λ m m' e. Held-recover now now m m' l.log e v.settled) v.settled
        (Held-later t now (entries_of l.store) l.log le v.held);
  settled = v.settled;
  distinct = v.distinct;
}
step-Inv caps d t now (recovers false) l le call v = record {
  held = Held-later t now (entries_of l.store) l.log le v.held;
  settled = v.settled;
  distinct = v.distinct;
}
step-Inv caps d t now (reserves id p bound) l le call v = record {
  held =
      edit-Held d now now (reserve id p (caps p) bound now) l.store l.log (omega arith)
        (λ m m' e h.
          subst (λ x. All (Held now x) l.log) (reserve-insert id p (caps p) bound now m m' e)
            (Held-insert now id _ m l.log call h))
        v.settled (Held-later t now (entries_of l.store) l.log le v.held);
  settled = v.settled;
  distinct = v.distinct;
}
step-Inv caps d t now (settles id cost at) l le call v =
    settles-Inv d id cost now at l.store l.log call (record {
      held = Held-later t now (entries_of l.store) l.log le v.held;
      settled = v.settled;
      distinct = v.distinct;
    })

abbrev pub end_time : ℕ → List (Disk × ℕ × Call) → ℕ
end_time t [] = t
end_time t ((d, now, call) ∷ cs) = end_time now cs

run-Inv :
    (caps : String → ℕ) (cs : List (Disk × ℕ × Call)) (t : ℕ) (l : Ledger)
    → IsProper caps t cs l
    → Inv t (entries_of l.store) l.log
    → Inv (end_time t cs) (entries_of (run caps cs l).store) (run caps cs l).log
unfolding run
run-Inv caps [] t l proper v = v
run-Inv caps ((d, now, call) ∷ cs) t l proper v =
    run-Inv caps cs now (step caps (d, now, call) l) proper.2
      (step-Inv caps d t now call l proper.0 proper.1 v)

fresh-Inv : Inv 0 (entries_of fresh_ledger.store) fresh_ledger.log
fresh-Inv = record { held = tt; settled = tt; distinct = tt }

-- After any proper history, also one with failing disks and restarts, what was charged to a
-- provider with dates in the last 23 hours is within its cap. What is only reserved for it is not
-- counted in this sum.
pub charged-run-le :
    (caps : String → ℕ) (cs : List (Disk × ℕ × Call)) (p : String) (since : ℕ)
    → IsProper caps 0 cs fresh_ledger
    → end_time 0 cs ≤ since + sure_window
    → charged p since (run caps cs fresh_ledger).log ≤ caps p
charged-run-le caps cs p since proper near =
    let l = run caps cs fresh_ledger in
    let v = run-Inv caps cs 0 fresh_ledger proper fresh-Inv in
    omega (
      arith,
      charged-le p (end_time 0 cs) since (entries_of l.store) l.log near v.distinct v.held,
      run-fresh-IsSolvent caps cs p,
    )
