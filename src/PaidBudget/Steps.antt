-- ===== src/PaidBudget/Steps.antt =====
-- Histories of the ledger: the calls of all processes in the order in which the lock admits them,
-- with the log of the charges that were settled.
use claude_gateway.Prelude.{
  ℕ, ◌≡◌, refl, ◌⊎◌, inl, inr, Bool-cases, not, ◌&&◌, String, Bool, true, false, Option, none, some,
  List, [], ◌∷◌, lookup, ◌==◌, if◌then◌else◌, arith,
}
use claude_gateway.PaidBudget.{
  Error, storage, Entry, Entries, Store, Disk, Outcome, Result, ok, err, absent, stored, load,
  edit_paid_budget, recover_paid_budgets, reserve_paid_budget, settle_paid_budget, prune, replace,
}

pub data Call : Type 0 where
  recovers : Bool → Call
  reserves : String → String → ℕ → Call
  settles : String → ℕ → ℕ → Call

-- The entries that the next edit will read.
abbrev pub entries_of : Store → Entries
entries_of s = elim s.file [
  | stored version entries ↦ elim entries [ none ↦ [] | some m ↦ m ]
  | _ ↦ []
]

abbrev pub fresh_store : Store
fresh_store = record { marked = false; file = absent }

unfoldable pub outcome : (String → ℕ) → Disk → ℕ → Call → Store → Outcome
outcome caps d now (recovers enabled) s = recover_paid_budgets d enabled now s
outcome caps d now (reserves id p bound) s = reserve_paid_budget d id p (caps p) bound now s
outcome caps d now (settles id cost at) s = settle_paid_budget d id cost at s

-- What an edit does to the entries: nothing, with an error, or what `f` makes of those that are
-- not over.
abbrev pub Edited : (Entries → Result Entries) → ℕ → Store → Outcome → Type 0
Edited f now s o =
    ((entries_of o.store ≡ entries_of s) × ((e : Error) × (o.error ≡ some e)))
    ⊎ ((m : Entries) × (f (prune now (entries_of s)) ≡ ok m) × (entries_of o.store ≡ m))

load-entries_of : (s : Store) (m : Entries) → load s ≡ ok m → entries_of s ≡ m
unfolding load
load-entries_of s m h = ground arith

replace-Edited :
    (d : Disk) (m : Entries) (s : Store)
    → ((entries_of (replace d m s).store ≡ entries_of s) × ((replace d m s).error ≡ some storage))
      ⊎ (entries_of (replace d m s).store ≡ m)
unfolding replace
replace-Edited d m s = ground arith

Result-cases : (r : Result Entries) → ((m : Entries) × (r ≡ ok m)) ⊎ ((e : Error) × (r ≡ err e))
Result-cases (ok m) = inl (m, refl)
Result-cases (err e) = inr (e, refl)

-- The part of an edit behind the lock and the mark.
edit_loaded :
    (d : Disk) (now : ℕ) (f : Entries → Result Entries) (s : Store) (m : Entries)
    → d.locks ≡ true
    → load s ≡ ok m
    → (not s.marked && not d.marks) ≡ false
    → Edited f now s (edit_paid_budget d now f s)
unfolding edit_paid_budget
edit_loaded d now f s m locks loads marks = elim (Result-cases (f (prune now m))) [
  | inr (e, fails) ↦ rw (locks, loads, marks, fails, edit_paid_budget) (inl (refl, (e, refl)))
  | inl (m', edits) ↦
      rw (locks, loads, marks, edits, edit_paid_budget)
        (elim (replace-Edited d m' (record s { marked = true })) [
          | inl (same, e) ↦ inl (same, (storage, e))
          | inr new ↦ inr (m', rw (load-entries_of s m loads) edits, new)
        ])
]

pub edit-Edited :
    (d : Disk) (now : ℕ) (f : Entries → Result Entries) (s : Store)
    → Edited f now s (edit_paid_budget d now f s)
unfolding edit_paid_budget
edit-Edited d now f s = elim (Bool-cases d.locks) [
  | inr off ↦ rw (off, edit_paid_budget) (inl (refl, (storage, refl)))
  | inl locks ↦ elim (Result-cases (load s)) [
    | inr (e, fails) ↦ rw (locks, fails, edit_paid_budget) (inl (refl, (e, refl)))
    | inl (m, loads) ↦ elim (Bool-cases (not s.marked && not d.marks)) [
      | inl off ↦ rw (locks, loads, off, edit_paid_budget) (inl (refl, (storage, refl)))
      | inr marks ↦ edit_loaded d now f s m locks loads marks
    ]
  ]
]

-- The store, and the charges that were settled with success and are not free, the latest first.
pub record Ledger : Type 0 where
  pub store : Store
  pub log : Entries

abbrev charge : String → ℕ → ℕ → Option Entry → Entries → Entries
charge id cost at none log = log
charge id cost at (some e) log = (id, record e { pending = false; micro_usd = cost; at = at }) ∷ log

-- The settlement went through, and something was charged.
unfoldable pub logs : ℕ → Outcome → Bool
logs cost o = elim o.error [ none ↦ not (cost == 0) | some e ↦ false ]

abbrev pub log_after : Call → Store → Outcome → Entries → Entries
log_after (settles id cost at) s o log =
    if logs cost o then charge id cost at (lookup id (prune at (entries_of s))) log else log
log_after _ s o log = log

unfoldable pub step : (String → ℕ) → Disk × ℕ × Call → Ledger → Ledger
step caps (d, now, call) l = record {
  store = (outcome caps d now call l.store).store;
  log = log_after call l.store (outcome caps d now call l.store) l.log;
}

unfoldable pub run : (String → ℕ) → List (Disk × ℕ × Call) → Ledger → Ledger
run caps [] l = l
run caps (c ∷ cs) l = run caps cs (step caps c l)

abbrev pub fresh_ledger : Ledger
fresh_ledger = record { store = fresh_store; log = [] }
