-- ===== src/PaidBudget.antt =====
-- The ledger of paid_budget.go: `editPaidBudget`, `recoverPaidBudgets`, `reservePaidBudget` and
-- `settlePaidBudget`. Money is in micro-dollars. The file system's answers to one edit are an
-- argument; the cap of a provider is `math.Floor(limit*1e6)`.
pub mod Sums
pub mod Steps
pub mod Solvency
pub mod Window
pub mod Recovery
use claude_gateway.Prelude.{
  ℕ, ◌+◌, ◌-◌, ◌*◌, ◌^◌, String, Bool, true, false, not, ◌&&◌, ◌||◌, Option, none, some, List, [],
  ◌∷◌, map, length, keep, ltb, leb, ◌==◌, str_eq, lookup, insert, erase, if◌then◌else◌, minute,
  hour,
}

abbrev pub window : ℕ
window = 24 * hour

abbrev pub attempt_lifetime : ℕ
attempt_lifetime = hour

abbrev pub max_entries : ℕ
max_entries = 32768

pub record Entry : Type 0 where
  pub provider : String
  pub at : ℕ
  pub micro_usd : ℕ
  pub pending : Bool

abbrev pub Entries : Type 0
Entries = List (String × Entry)

-- The ledger file: `stored` holds the version and the entries, which are `none` for JSON `null`.
pub data LedgerFile : Type 0 where
  absent : LedgerFile
  irregular : LedgerFile
  malformed : LedgerFile
  stored : ℕ → Option Entries → LedgerFile

-- The lock file is marked once the ledger has been set up.
pub record Store : Type 0 where
  pub marked : Bool
  pub file : LedgerFile

-- Whether the lock could be taken, the mark be written and synced, the new file be put in place,
-- and the directory be synced; `leaves_mark` is whether a failure at the mark leaves it written.
pub record Disk : Type 0 where
  pub locks : Bool
  pub marks : Bool
  pub leaves_mark : Bool
  pub replaces : Bool
  pub syncs : Bool

pub data Error : Type 0 where
  storage unsafe_state invalid_state unsupported_state disappeared invalid_entry : Error
  exhausted : ℕ → Error
  missing_reservation cost_exceeds_bound : Error

pub data Result {ℓ} (A : Type ℓ) : Type ℓ where
  ok : A → Result A
  err : Error → Result A

infixl 5 ◌>>=◌
abbrev pub ◌>>=◌ {ℓ κ} : {A : Type ℓ} {B : Type κ} → Result A → (A → Result B) → Result B
ok a >>= f = f a
err e >>= f = err e

unfoldable pub is_bad : Entry → Bool
is_bad e = ltb (10 ^ 12) e.micro_usd || e.at == 0 || str_eq e.provider ""

unfoldable pub any_bad : Entries → Bool
any_bad [] = false
any_bad ((id, e) ∷ m) = is_bad e || any_bad m

-- `!entry.Pending && !entry.At.After(now.Add(-paidBudgetWindow))`
unfoldable pub is_over : ℕ → Entry → Bool
is_over now e = not e.pending && leb (e.at + window) now

unfoldable pub prune : ℕ → Entries → Entries
prune now m = keep (λ entry. not (is_over now entry.1)) m

-- Reading the ledger, up to the loop that drops the old entries.
unfoldable pub load : Store → Result Entries
load s = elim s.file [
  | absent ↦ if s.marked then err disappeared else ok []
  | irregular ↦ err unsafe_state
  | malformed ↦ err invalid_state
  | stored version entries ↦ elim entries [
    | none ↦ err unsupported_state
    | some m ↦
        if not (version == 1) || ltb max_entries (length m)
        then err unsupported_state
        else if any_bad m
        then err invalid_entry
        else ok m
  ]
]

-- What was stored, and the error that the caller sees.
pub record Outcome : Type 0 where
  pub store : Store
  pub error : Option Error

unfoldable pub replace : Disk → Entries → Store → Outcome
replace d m s =
    if d.replaces
    then record {
      store = record s { file = stored 1 (some m) };
      error = if d.syncs then none else some storage;
    }
    else record { store = s; error = some storage }

unfoldable pub edit_paid_budget : Disk → ℕ → (Entries → Result Entries) → Store → Outcome
edit_paid_budget d now edit s =
    let marked = record s { marked = true } in
    if not d.locks then record { store = s; error = some storage } else elim (load s) [
      | err e ↦ record { store = s; error = some e }
      | ok m ↦
          if not s.marked && not d.marks
          then record { store = record s { marked = d.leaves_mark }; error = some storage }
          else elim (edit (prune now m)) [
            | err e ↦ record { store = marked; error = some e }
            | ok m' ↦ replace d m' marked
          ]
    ]

unfoldable pub recover_entry : ℕ → Entry → Entry
recover_entry now e =
    if e.pending then record e { pending = false; at = now + attempt_lifetime } else e

unfoldable pub recover : ℕ → Entries → Result Entries
recover now m = ok (map (λ entry. (entry.0, recover_entry now entry.1)) m)

-- The reserved and the charged amounts of a provider.
unfoldable pub total : String → Entries → ℕ
total p [] = 0
total p ((id, e) ∷ m) = (if str_eq e.provider p then e.micro_usd else 0) + total p m

unfoldable pub reserve : String → String → ℕ → ℕ → ℕ → Entries → Result Entries
reserve id p cap bound now m =
    if bound == 0 || ltb cap (total p m + bound) || leb max_entries (length m)
    then err (exhausted (now + minute))
    else ok (insert id (record { provider = p; at = now; micro_usd = bound; pending = true }) m)

unfoldable pub settle : String → ℕ → ℕ → Entries → Result Entries
settle id cost now m = elim (lookup id m) [
  | none ↦ err missing_reservation
  | some e ↦
      if ltb e.micro_usd cost
      then err cost_exceeds_bound
      else if cost == 0
      then ok (erase id m)
      else ok (insert id (record e { pending = false; micro_usd = cost; at = now }) m)
]

unfoldable pub recover_paid_budgets : Disk → Bool → ℕ → Store → Outcome
recover_paid_budgets d enabled now s =
    if enabled then edit_paid_budget d now (recover now) s else record { store = s; error = none }

-- `id` is the random identifier.
unfoldable pub reserve_paid_budget : Disk → String → String → ℕ → ℕ → ℕ → Store → Outcome
reserve_paid_budget d id p cap bound now s = edit_paid_budget d now (reserve id p cap bound now) s

-- `now` is the time that the caller gives for the charge: `time.Now()`, or `paidAttemptLifetime`
-- later where the cost stays unknown.
unfoldable pub settle_paid_budget : Disk → String → ℕ → ℕ → Store → Outcome
settle_paid_budget d id cost now s = edit_paid_budget d now (settle id cost now) s
