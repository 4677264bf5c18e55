-- ===== src/Rollup/Batches.antt =====
-- The batches of a flush of rollups.go, one by one, and the lines that they leave.
use claude_gateway.Prelude.{
  ℕ, suc, ◌≤◌, String, Bool, true, false, none, some, List, ◌≡◌, ◌⊎◌, refl, sym, ap, subst, ◌∙◌,
  inl, inr, str_eq, eq_iff, lookup, insert, lookup-insert, if◌then◌else◌, if_both, option_split,
  arith,
}
use claude_gateway.Rollup.{plus, minus, RollupCounts, counts_sub, counts_zero}
use claude_gateway.Rollup.Counters.{Counter, count, count-counts_sub}
use claude_gateway.Rollup.Store.{LineId, PendingRollup, RollupStore, counts_of, prepare_key}
use claude_gateway.Rollup.Reading.{holds, sum_read}

inserted :
    (j k : String) (b p : PendingRollup) (m : List (String × PendingRollup))
    → lookup k (insert j b m) ≡ some p
    → ((j ≡ k) × (b ≡ p)) ⊎ ((str_eq j k ≡ false) × (lookup k m ≡ some p))
inserted j k b p m e = ground (arith, lookup-insert j k b m, e, eq_iff j k)

missing_in :
    (j k : String) (b : PendingRollup) (m : List (String × PendingRollup))
    → lookup k (insert j b m) ≡ none
    → lookup k m ≡ none
missing_in j k b m e = ground (arith, lookup-insert j k b m, e)

module _ (recent : String → Bool) (me : String) (c : Counter) (base : String → ℕ) where
  abbrev pub own : ℕ → LineId
  own n = record { instance_name = me; sequence = n }

  -- `P k v`: the bucket of `k` once held `v`.
  pub record Exact (P : String → RollupCounts → Type 0) (r : RollupStore) : Type 0 where
    pub used : (n : ℕ) → holds (own n) r.log ≡ true → n ≤ r.sequence
    pub number :
        (k : String) (p : PendingRollup) → lookup k r.pending ≡ some p → p.number ≤ r.sequence
    pub apart :
        (k j : String) (p q : PendingRollup)
        → lookup k r.pending ≡ some p
        → lookup j r.pending ≡ some q
        → p.number ≡ q.number
        → k ≡ j
    pub delta :
        (k : String) (p : PendingRollup)
        → lookup k r.pending ≡ some p
        → count c p.delta ≡ minus (count c p.snapshot) (count c (counts_of k r.flushed))
    pub settled :
        (k : String)
        → recent k ≡ true
        → lookup k r.pending ≡ none
        → sum_read recent c k r.log ≡ plus (base k) (count c (counts_of k r.flushed))
    pub waiting :
        (k : String) (p : PendingRollup)
        → recent k ≡ true
        → lookup k r.pending ≡ some p
        → sum_read recent c k r.log
          ≡ plus
              (base k)
              (count c (if holds (own p.number) r.log then p.snapshot else counts_of k r.flushed))
    pub past : (k : String) → P k (counts_of k r.flushed)
    pub snapped : (k : String) (p : PendingRollup) → lookup k r.pending ≡ some p → P k p.snapshot

  apart_inserted :
      (P : String → RollupCounts → Type 0) (j : String) (r : RollupStore) (b : PendingRollup)
      → Exact P r
      → b.number ≡ suc r.sequence
      → (k i : String) (p q : PendingRollup) → lookup k (insert j b r.pending) ≡ some p
      → lookup i (insert j b r.pending) ≡ some q
      → p.number ≡ q.number
      → k ≡ i
  apart_inserted P j r b x fresh k i p q e g eq = elim (inserted j k b p r.pending e) [
    | inl (same, mine) ↦ elim (inserted j i b q r.pending g) [
      | inl (same', mine') ↦ sym same ∙ same'
      | inr (other', old') ↦
          absurd (too_new q (x.number i q old') (ap (λ (u : PendingRollup). u.number) mine ∙ eq))
    ]
    | inr (other, old) ↦ elim (inserted j i b q r.pending g) [
      | inl (same', mine') ↦
          absurd
            (too_new p (x.number k p old) (ap (λ (u : PendingRollup). u.number) mine' ∙ sym eq))
      | inr (other', old') ↦ x.apart k i p q old old' eq
    ]
  ]
    where
      too_new : (u : PendingRollup) → u.number ≤ r.sequence → b.number ≡ u.number → ⊥
      too_new u le same = omega (arith, le, same, fresh)

  -- A batch is made.
  pub prepare_key-Exact :
      (P : String → RollupCounts → Type 0) (j : String) (r : RollupStore)
      → ((k : String) → P k (counts_of k r.buckets))
      → Exact P r
      → Exact P (prepare_key j r)
  unfolding prepare_key
  prepare_key-Exact P j r now x =
      let counts = counts_of j r.buckets in
      let d = counts_sub counts (counts_of j r.flushed) in
      let unheld : holds (own (suc r.sequence)) r.log ≡ false =
        (ground (arith, x.used (suc r.sequence))) in
      let b : PendingRollup = record { number = suc r.sequence; delta = d; snapshot = counts } in
      option_split (Exact P) (lookup j r.pending) _ _
        (λ empty.
          if_both (Exact P) (counts_zero d) r _ (λ h. x)
            (λ h. record {
              used = λ n held. omega (arith, x.used n held);
              number = λ k p e. elim (inserted j k b p r.pending e) [
                | inl (same, mine) ↦
                    subst (λ (q : PendingRollup). q.number ≤ suc r.sequence) mine (omega arith)
                | inr (other, old) ↦ omega (arith, x.number k p old)
              ];
              apart = λ k i p q e g eq. apart_inserted P j r b x refl k i p q e g eq;
              delta = λ k p e. elim (inserted j k b p r.pending e) [
                | inl (same, mine) ↦
                    subst
                      (λ (q : PendingRollup).
                        count c q.delta
                        ≡ minus (count c q.snapshot) (count c (counts_of k r.flushed)))
                      mine
                      (subst
                        (λ i. count c d ≡ minus (count c counts) (count c (counts_of i r.flushed)))
                        same (count-counts_sub c counts (counts_of j r.flushed)))
                | inr (other, old) ↦ x.delta k p old
              ];
              settled = λ k kept e. x.settled k kept (missing_in j k b r.pending e);
              waiting = λ k p kept e. elim (inserted j k b p r.pending e) [
                | inl (same, mine) ↦
                    subst
                      (λ (q : PendingRollup).
                        sum_read recent c k r.log
                        ≡ plus (base k) (
                            count c (
                              if holds (own q.number) r.log
                              then q.snapshot
                              else counts_of k r.flushed)))
                      mine
                      (x.settled k kept (subst (λ i. lookup i r.pending ≡ none) same empty)
                        ∙ ap
                            (λ held.
                              plus (base k)
                                (count c (if held then counts else counts_of k r.flushed)))
                            (sym unheld))
                | inr (other, old) ↦ x.waiting k p kept old
              ];
              past = x.past;
              snapped = λ k p e. elim (inserted j k b p r.pending e) [
                | inl (same, mine) ↦
                    subst (λ (q : PendingRollup). P k q.snapshot) mine
                      (subst (λ i. P i counts) same (now j))
                | inr (other, old) ↦ x.snapped k p old
              ];
            }))
        (λ p found. x)
