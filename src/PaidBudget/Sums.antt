-- ===== src/PaidBudget/Sums.antt =====
-- Amounts in a ledger, and what the edits of `PaidBudget` do to them and to the entries.
use claude_gateway.Prelude.{
  ℕ, ◌+◌, ◌≤◌, ◌≡◌, refl, String, Bool, true, false, Option, none, some, [], ◌∷◌, map, keep, str_eq,
  lookup, insert, erase, if◌then◌else◌, arith,
}
use claude_gateway.PaidBudget.{Entry, Entries, total, recover_entry}

-- What one entry adds to the total of a provider.
abbrev pub amount : String → Entry → ℕ
amount p e = if str_eq e.provider p then e.micro_usd else 0

abbrev pub amount_at : String → Option Entry → ℕ
amount_at p none = 0
amount_at p (some e) = amount p e

pub total-keep-le :
    (p : String) (q : (String × Entry) → Bool) (m : Entries) → total p (keep q m) ≤ total p m
unfolding total
total-keep-le p q [] = omega arith
total-keep-le p q ((id, e) ∷ m) = ground (arith, total-keep-le p q m)

pub total-insert :
    (p id : String) (e : Entry) (m : Entries)
    → total p (insert id e m) + amount_at p (lookup id m) ≡ total p m + amount p e
unfolding total
total-insert p id e [] = omega arith
total-insert p id e ((j, d) ∷ m) = ground (arith, total-insert p id e m)

pub total-erase-le :
    (p id : String) (m : Entries) → total p (erase id m) + amount_at p (lookup id m) ≤ total p m
unfolding total
total-erase-le p id [] = omega arith
total-erase-le p id ((j, d) ∷ m) = ground (arith, total-erase-le p id m)

pub total-recover :
    (p : String) (now : ℕ) (m : Entries)
    → total p (map (λ entry. (entry.0, recover_entry now entry.1)) m) ≡ total p m
unfolding total recover_entry
total-recover p now [] = refl
total-recover p now ((id, e) ∷ m) = ground (arith, total-recover p now m)

pub lookup-keep :
    (id : String) (q : (String × Entry) → Bool) (m : Entries) (e : Entry)
    → lookup id m ≡ some e
    → ((j : String) → q (j, e) ≡ true)
    → lookup id (keep q m) ≡ some e
lookup-keep id q [] e h pass = cc
lookup-keep id q ((j, d) ∷ m) e h pass = ground (arith, pass j, lookup-keep id q m e)

pub lookup-recover :
    (id : String) (now : ℕ) (m : Entries) (e : Entry)
    → lookup id m ≡ some e
    → e.pending ≡ false
    → lookup id (map (λ entry. (entry.0, recover_entry now entry.1)) m) ≡ some e
unfolding recover_entry
lookup-recover id now [] e h settled = h
lookup-recover id now ((j, d) ∷ m) e h settled = ground (arith, lookup-recover id now m e)
