-- ===== src/Rollup/Readiness.antt =====
-- The first half of `flush` of rollups.go: what it leaves of a key.
use claude_gateway.Prelude.{
  suc, String, true, false, none, some, List, [], ◌∷◌, ◌≡◌, ◌⊎◌, refl, sym, ap, subst, ◌∙◌, inl,
  inr, str_eq, eq_iff, lookup, lookup-insert, if_both, option_split, Bool-cases, arith,
}
use claude_gateway.Rollup.{RollupCounts, counts_sub, counts_zero}
use claude_gateway.Rollup.Store.{PendingRollup, RollupStore, counts_of, prepare_key, prepare_all}

-- The key has a batch of all that its bucket holds, or nothing is left to write.
unfoldable pub Ready : String → RollupStore → Type 0
Ready k r =
    ((p : PendingRollup) × (lookup k r.pending ≡ some p) × (p.snapshot ≡ counts_of k r.buckets))
    ⊎ ((lookup k r.pending ≡ none)
        × (counts_zero (counts_sub (counts_of k r.buckets) (counts_of k r.flushed)) ≡ true))

-- What a batch leaves alone.
abbrev SameCounts : RollupStore → RollupStore → Type 0
SameCounts r s = (s.buckets ≡ r.buckets) × (s.flushed ≡ r.flushed)

prepare_key_same : (k : String) (r : RollupStore) → SameCounts r (prepare_key k r)
unfolding prepare_key
prepare_key_same k r =
    option_split (SameCounts r) (lookup k r.pending) _ _
      (λ h.
        if_both (SameCounts r)
          (counts_zero (counts_sub (counts_of k r.buckets) (counts_of k r.flushed))) r _
          (λ e. (refl, refl)) (λ e. (refl, refl)))
      (λ p h. (refl, refl))

pub prepare_all_same :
    (m : List (String × RollupCounts)) (r : RollupStore) → SameCounts r (prepare_all m r)
unfolding prepare_all
prepare_all_same [] r = (refl, refl)
prepare_all_same ((k, v) ∷ m) r =
    let (b, f) = prepare_key_same k r in
    let (b', f') = prepare_all_same m (prepare_key k r) in (b' ∙ b, f' ∙ f)

prepare_key-Ready :
    (k : String) (r : RollupStore) → lookup k r.pending ≡ none → Ready k (prepare_key k r)
unfolding prepare_key Ready
prepare_key-Ready k r empty =
    let counts = counts_of k r.buckets in
    let d = counts_sub counts (counts_of k r.flushed) in
    let b : PendingRollup = record { number = suc r.sequence; delta = d; snapshot = counts } in
    option_split (Ready k) (lookup k r.pending) _ _
      (λ h.
        if_both (Ready k) (counts_zero d) r _ (λ e. inr (empty, e))
          (λ e. inl (b, ground (arith, lookup-insert k k b r.pending, eq_iff k k), refl)))
      (λ p h. ground arith)

prepare_key_other :
    (j k : String) (r : RollupStore)
    → str_eq j k ≡ false
    → lookup k (prepare_key j r).pending ≡ lookup k r.pending
unfolding prepare_key
prepare_key_other j k r other =
    option_split (λ (s : RollupStore). lookup k s.pending ≡ lookup k r.pending) (lookup j r.pending)
      _ _
      (λ h.
        if_both (λ (s : RollupStore). lookup k s.pending ≡ lookup k r.pending)
          (counts_zero (counts_sub (counts_of j r.buckets) (counts_of j r.flushed))) r _ (λ e. refl)
          (λ e. ground (
            arith,
            lookup-insert j k
                (record {
                  number = suc r.sequence;
                  delta = counts_sub (counts_of j r.buckets) (counts_of j r.flushed);
                  snapshot = counts_of j r.buckets;
                })
                r.pending,
            other,
          )))
      (λ p h. refl)

-- A key that is ready needs no batch.
prepare_key_idle : (k : String) (r : RollupStore) → Ready k r → prepare_key k r ≡ r
unfolding prepare_key Ready
prepare_key_idle k r (inl (p, found, same)) =
    option_split (λ s. s ≡ r) (lookup k r.pending) _ _ (λ missing. ground (arith, found, missing))
      (λ q h. refl)
prepare_key_idle k r (inr (empty, nothing)) =
    option_split (λ s. s ≡ r) (lookup k r.pending) _ _
      (λ missing.
        if_both (λ s. s ≡ r)
          (counts_zero (counts_sub (counts_of k r.buckets) (counts_of k r.flushed))) r _ (λ e. refl)
          (λ e. ground (arith, e, nothing)))
      (λ q h. refl)

carried :
    (k : String) (r s : RollupStore)
    → lookup k s.pending ≡ lookup k r.pending
    → SameCounts r s
    → Ready k r
    → Ready k s
unfolding Ready
carried k r s same (b, f) (inl (p, found, snap)) =
    inl (p, same ∙ found, snap ∙ ap (counts_of k) (sym b))
carried k r s same (b, f) (inr (empty, nothing)) = inr (
  same ∙ empty,
  ap (λ m. counts_zero (counts_sub (counts_of k m) (counts_of k s.flushed))) b
      ∙ ap (λ m. counts_zero (counts_sub (counts_of k r.buckets) (counts_of k m))) f
      ∙ nothing,
)

stays-Ready : (j k : String) (r : RollupStore) → Ready k r → Ready k (prepare_key j r)
stays-Ready j k r ready = elim (Bool-cases (str_eq j k)) [
  | inl same ↦
      subst (Ready k)
        (sym (ap (λ i. prepare_key i r) ((eq_iff j k).0 same) ∙ prepare_key_idle k r ready)) ready
  | inr other ↦
      carried k r (prepare_key j r) (prepare_key_other j k r other) (prepare_key_same j r) ready
]

pub all_stays-Ready :
    (k : String) (m : List (String × RollupCounts)) (r : RollupStore)
    → Ready k r
    → Ready k (prepare_all m r)
unfolding prepare_all
all_stays-Ready k [] r ready = ready
all_stays-Ready k ((j, v) ∷ m) r ready =
    all_stays-Ready k m (prepare_key j r) (stays-Ready j k r ready)

pub prepare_all-Ready :
    (k : String) (v : RollupCounts) (m : List (String × RollupCounts)) (r : RollupStore)
    → lookup k m ≡ some v
    → lookup k r.pending ≡ none
    → Ready k (prepare_all m r)
unfolding prepare_all
prepare_all-Ready k v [] r found empty = ground arith
prepare_all-Ready k v ((j, w) ∷ m) r found empty = elim (Bool-cases (str_eq j k)) [
  | inl same ↦ all_stays-Ready k m (prepare_key j r) (
      subst (λ i. Ready k (prepare_key i r)) (sym ((eq_iff j k).0 same))
        (prepare_key-Ready k r empty))
  | inr other ↦
      prepare_all-Ready k v m (prepare_key j r) (ground (arith, found, other))
        (prepare_key_other j k r other ∙ empty)
]
