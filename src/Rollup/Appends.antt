-- ===== src/Rollup/Appends.antt =====
-- What an append and the advance after it, in `flush` of rollups.go, leave of the batches.
use claude_gateway.Prelude.{
  ℕ, String, Bool, true, false, none, some, List, [], ◌∷◌, ◌++◌, ◌==◌, ◌≡◌, sym, ap, subst, ◌∙◌,
  inl, inr, str_eq, eq_iff, lookup, insert, erase, lookup-insert, lookup-erase, if◌then◌else◌,
  if_both, Bool-cases, arith,
}
use claude_gateway.Rollup.{plus, minus, RollupCounts}
use claude_gateway.Rollup.Counters.{Counter, count}
use claude_gateway.Rollup.Store.{
  RollupLine, PendingRollup, RollupStore, counts_of, advance, write_line, line_of, same_id,
}
use claude_gateway.Rollup.Reading.{
  identified, holds, sum_read, sum_read-snoc, holds-snoc, same_id_refl,
}
use claude_gateway.Rollup.Batches.{Exact, own}

-- Written once more or for the first time, the difference makes the snapshot.
caught_up :
    (base old new delta : ℕ) → delta ≡ minus new old → plus (plus base old) delta ≡ plus base new
caught_up base old new delta e = omega (arith, e)

counts_of-insert :
    (j k : String) (v : RollupCounts) (m : List (String × RollupCounts))
    → counts_of k (insert j v m) ≡ (if str_eq j k then v else counts_of k m)
unfolding counts_of
counts_of-insert j k v m = ground (arith, lookup-insert j k v m)

remaining :
    (j k : String) (p : PendingRollup) (m : List (String × PendingRollup))
    → lookup k (erase j m) ≡ some p
    → (str_eq j k ≡ false) × (lookup k m ≡ some p)
remaining j k p m e = ground (arith, lookup-erase j k m, e)

module _ (recent : String → Bool) (me : String) (c : Counter) (base : String → ℕ) where
  -- A line is written, whether the append says so or not.
  sum_read_same :
      (k j : String) (n : ℕ) (d : RollupCounts) (log : List RollupLine)
      → recent k ≡ true
      → str_eq j k ≡ false
      → sum_read recent c k (log ++ identified (own recent me c base n) j d ∷ [])
        ≡ sum_read recent c k log
  sum_read_same k j n d log kept other =
      ground (arith, sum_read-snoc recent c k j (own recent me c base n) d log kept, other)

  holds_other :
      (m n : ℕ) (j : String) (d : RollupCounts) (log : List RollupLine)
      → (m == n) ≡ false
      → holds (own recent me c base n) (log ++ identified (own recent me c base m) j d ∷ [])
        ≡ holds (own recent me c base n) log
  unfolding same_id
  holds_other m n j d log other =
      ground (arith, holds-snoc (own recent me c base n) (own recent me c base m) j d log, other)

  pub holds_own :
      (n : ℕ) (j : String) (d : RollupCounts) (log : List RollupLine)
      → holds (own recent me c base n) (log ++ identified (own recent me c base n) j d ∷ []) ≡ true
  holds_own n j d log = ground (
    arith,
    holds-snoc (own recent me c base n) (own recent me c base n) j d log,
    same_id_refl (own recent me c base n),
  )

  rewritten :
      (P : String → RollupCounts → Type 0) (k : String) (p : PendingRollup) (r : RollupStore)
      → recent k ≡ true
      → lookup k r.pending ≡ some p
      → Exact recent me c base P r
      → sum_read recent c k (r.log ++ line_of me k p ∷ []) ≡ plus (base k) (count c p.snapshot)
  rewritten P k p r kept found x =
      let before = x.waiting k p kept found in
      let after = sum_read-snoc recent c k k (own recent me c base p.number) p.delta r.log kept in
      let f = counts_of k r.flushed in
      let sum =
        caught_up (base k) (count c f) (count c p.snapshot) (count c p.delta) (x.delta k p found) in
      elim (Bool-cases (holds (own recent me c base p.number) r.log)) [
        | inl held ↦ ground (arith, held, before, after)
        | inr unheld ↦ ground (arith, unheld, before, after, sum, eq_iff k k)
      ]

  rewritten_at :
      (P : String → RollupCounts → Type 0) (j k : String) (p q : PendingRollup) (r : RollupStore)
      → recent k ≡ true
      → lookup j r.pending ≡ some p
      → lookup k r.pending ≡ some q
      → j ≡ k
      → Exact recent me c base P r
      → sum_read recent c k (r.log ++ line_of me j p ∷ [])
        ≡ plus (base k) (
            count c (
              if holds (own recent me c base q.number) (r.log ++ line_of me j p ∷ [])
              then q.snapshot
              else counts_of k r.flushed))
  rewritten_at P j k p q r kept found e same x =
      let mine : p ≡ q = ground (arith, found, e, same) in
      let here : lookup k r.pending ≡ some p =
        subst (λ i. lookup i r.pending ≡ some p) same found in
      ap (λ i. sum_read recent c k (r.log ++ line_of me i p ∷ [])) same
      ∙ rewritten P k p r kept here x
      ∙ ap (λ held. plus (base k) (count c (if held then p.snapshot else counts_of k r.flushed)))
          (sym (holds_own p.number j p.delta r.log))
      ∙ ap
          (λ (u : PendingRollup). plus (base k) (
            count c (
              if holds (own recent me c base u.number) (r.log ++ line_of me j p ∷ [])
              then u.snapshot
              else counts_of k r.flushed)))
          mine

  pub write_line-Exact :
      (P : String → RollupCounts → Type 0) (j : String) (p : PendingRollup) (r : RollupStore)
      → lookup j r.pending ≡ some p
      → Exact recent me c base P r
      → Exact recent me c base P (write_line (line_of me j p) r)
  unfolding write_line same_id
  write_line-Exact P j p r found x = record {
    used = λ n held. ground (
      arith,
      holds-snoc (own recent me c base n) (own recent me c base p.number) j p.delta r.log,
      held,
      x.used n,
      x.number j p found,
    );
    number = x.number;
    apart = x.apart;
    delta = x.delta;
    settled = λ k kept e.
        sum_read_same k j p.number p.delta r.log kept (ground (arith, e, found, eq_iff j k))
        ∙ x.settled k kept e;
    waiting = λ k q kept e. elim (Bool-cases (str_eq j k)) [
      | inl same ↦ rewritten_at P j k p q r kept found e ((eq_iff j k).0 same) x
      | inr other ↦
          let far : (p.number == q.number) ≡ false =
            (ground (arith, x.apart j k p q found e, other, eq_iff j k)) in
          sum_read_same k j p.number p.delta r.log kept other
          ∙ x.waiting k q kept e
          ∙ ap
              (λ held. plus (base k) (count c (if held then q.snapshot else counts_of k r.flushed)))
              (sym (holds_other p.number q.number j p.delta r.log far))
    ];
    past = x.past;
    snapped = x.snapped;
  }

  pub advance-Exact :
      (P : String → RollupCounts → Type 0) (j : String) (p : PendingRollup) (r : RollupStore)
      → lookup j r.pending ≡ some p
      → holds (own recent me c base p.number) r.log ≡ true
      → Exact recent me c base P r
      → Exact recent me c base P (advance j p r)
  unfolding advance
  advance-Exact P j p r found written x = record {
    used = x.used;
    number = λ k q e. x.number k q (remaining j k q r.pending e).1;
    apart = λ k i q q' e g.
        x.apart k i q q' (remaining j k q r.pending e).1 (remaining j i q' r.pending g).1;
    delta = λ k q e.
        subst (λ f. count c q.delta ≡ minus (count c q.snapshot) (count c f))
          (sym (kept_back k (remaining j k q r.pending e).0))
          (x.delta k q (remaining j k q r.pending e).1);
    settled = λ k kept e. elim (Bool-cases (str_eq j k)) [
      | inl same ↦
          advanced k kept ((eq_iff j k).0 same)
          ∙ ap (λ f. plus (base k) (count c f)) (sym (taken k same))
      | inr other ↦
          x.settled k kept (unmoved k other e)
          ∙ ap (λ f. plus (base k) (count c f)) (sym (kept_back k other))
    ];
    waiting = λ k q kept e.
        subst
          (λ f.
            sum_read recent c k r.log
            ≡ plus (base k)
                (count c (if holds (own recent me c base q.number) r.log then q.snapshot else f)))
          (sym (kept_back k (remaining j k q r.pending e).0))
          (x.waiting k q kept (remaining j k q r.pending e).1);
    past = λ k. subst (P k) (sym (counts_of-insert j k p.snapshot r.flushed)) (
        if_both (P k) (str_eq j k) p.snapshot (counts_of k r.flushed)
          (λ same. subst (λ i. P i p.snapshot) ((eq_iff j k).0 same) (x.snapped j p found))
          (λ other. x.past k));
    snapped = λ k q e. x.snapped k q (remaining j k q r.pending e).1;
  }
    where
      kept_back :
          (k : String)
          → str_eq j k ≡ false
          → counts_of k (insert j p.snapshot r.flushed) ≡ counts_of k r.flushed
      kept_back k other = ground (arith, counts_of-insert j k p.snapshot r.flushed, other)

      taken :
          (k : String)
          → str_eq j k ≡ true
          → counts_of k (insert j p.snapshot r.flushed) ≡ p.snapshot
      taken k same = ground (arith, counts_of-insert j k p.snapshot r.flushed, same)

      unmoved :
          (k : String)
          → str_eq j k ≡ false
          → lookup k (erase j r.pending) ≡ none
          → lookup k r.pending ≡ none
      unmoved k other e = ground (arith, lookup-erase j k r.pending, other, e)

      advanced :
          (k : String)
          → recent k ≡ true
          → j ≡ k
          → sum_read recent c k r.log ≡ plus (base k) (count c p.snapshot)
      advanced k kept same =
          x.waiting k p kept (subst (λ i. lookup i r.pending ≡ some p) same found)
          ∙ ap
              (λ held. plus (base k) (count c (if held then p.snapshot else counts_of k r.flushed)))
              written
