-- ===== src/Rollup/Exact.antt =====
-- The exactness of the aggregates of rollups.go: whatever appends fail, and however often a batch
-- is written, the lines add up to what a bucket held at some time.
use claude_gateway.Prelude.{
  ℕ, ◌%◌, String, Bool, true, false, some, List, [], ◌∷◌, ◌≡◌, ◌⊎◌, refl, sym, subst, inl, inr,
  lookup, if◌then◌else◌, if_both, option_split, Option-cases, arith,
}
use claude_gateway.Rollup.{width, plus, RollupCounts, no_counts, counts_sub, counts_zero}
use claude_gateway.Rollup.Counters.{Counter, count, count-no_counts, count_word}
use claude_gateway.Rollup.Store.{
  RollupLine, PendingRollup, RollupStore, counts_of, Sample, observe, prepare_key, prepare_all,
  prepare, Fate, stored, refused, doubtful, write_line, line_of, persist_batch, read_lines, persist,
  Step, observes, prepares, persists, closes, step, after,
}
use claude_gateway.Rollup.Reading.{history, holds, sum_read}
use claude_gateway.Rollup.Batches.{Exact, prepare_key-Exact}
use claude_gateway.Rollup.Appends.{holds_own, write_line-Exact, advance-Exact}

module _ (recent : String → Bool) (me : String) (c : Counter) (base : String → ℕ) where
  persist_batch-Exact :
      (P : String → RollupCounts → Type 0) (fate : Fate) (j : String) (p : PendingRollup)
      (r : RollupStore)
      → lookup j r.pending ≡ some p
      → Exact recent me c base P r
      → Exact recent me c base P (persist_batch me fate j p r)
  unfolding persist_batch write_line
  persist_batch-Exact P refused j p r found x = x
  persist_batch-Exact P doubtful j p r found x = write_line-Exact recent me c base P j p r found x
  persist_batch-Exact P stored j p r found x =
      advance-Exact recent me c base P j p (write_line (line_of me j p) r) found
        (holds_own recent me c base p.number j p.delta r.log)
        (write_line-Exact recent me c base P j p r found x)

  persist-Exact :
      (P : String → RollupCounts → Type 0) (fate : Fate) (j : String) (r : RollupStore)
      → Exact recent me c base P r
      → Exact recent me c base P (persist me fate j r)
  unfolding persist
  persist-Exact P fate j r x =
      option_split (Exact recent me c base P) (lookup j r.pending) r _ (λ missing. x)
        (λ p found. persist_batch-Exact P fate j p r found x)

  prepare_key_buckets : (k : String) (r : RollupStore) → (prepare_key k r).buckets ≡ r.buckets
  unfolding prepare_key
  prepare_key_buckets k r =
      option_split (λ (s : RollupStore). s.buckets ≡ r.buckets) (lookup k r.pending) _ _
        (λ h.
          if_both (λ (s : RollupStore). s.buckets ≡ r.buckets)
            (counts_zero (counts_sub (counts_of k r.buckets) (counts_of k r.flushed))) r _
            (λ e. refl) (λ e. refl))
        (λ p h. refl)

  prepare_all-Exact :
      (P : String → RollupCounts → Type 0) (m : List (String × RollupCounts)) (r : RollupStore)
      → ((k : String) → P k (counts_of k r.buckets))
      → Exact recent me c base P r
      → Exact recent me c base P (prepare_all m r)
        × ((k : String) → P k (counts_of k (prepare_all m r).buckets))
  unfolding prepare_all
  prepare_all-Exact P [] r now x = (x, now)
  prepare_all-Exact P ((j, v) ∷ m) r now x =
      prepare_all-Exact P m (prepare_key j r)
        (λ k. subst (λ b. P k (counts_of k b)) (sym (prepare_key_buckets j r)) (now k))
        (prepare_key-Exact recent me c base P j r now x)

  weaken :
      (P Q : String → RollupCounts → Type 0) (r : RollupStore)
      → ((k : String) (v : RollupCounts) → P k v → Q k v)
      → Exact recent me c base P r
      → Exact recent me c base Q r
  weaken P Q r more x = record {
    used = x.used;
    number = x.number;
    apart = x.apart;
    delta = x.delta;
    settled = x.settled;
    waiting = x.waiting;
    past = λ k. more k (counts_of k r.flushed) (x.past k);
    snapped = λ k p e. more k p.snapshot (x.snapped k p e);
  }

  observe-Exact :
      (P : String → RollupCounts → Type 0) (s : Sample) (r : RollupStore)
      → Exact recent me c base P r
      → Exact recent me c base P (observe s r)
  unfolding observe
  observe-Exact P s r x =
      if_both (Exact recent me c base P) r.closed r _ (λ h. x)
        (λ h. record {
          used = x.used;
          number = x.number;
          apart = x.apart;
          delta = x.delta;
          settled = x.settled;
          waiting = x.waiting;
          past = x.past;
          snapped = x.snapped;
        })

  step-Exact :
      (P : String → RollupCounts → Type 0) (x : Step) (r : RollupStore)
      → ((k : String) → P k (counts_of k r.buckets))
      → Exact recent me c base P r
      → Exact recent me c base P (step me x r)
  unfolding step prepare
  step-Exact P (observes sample) r now x = observe-Exact P sample r x
  step-Exact P prepares r now x = (prepare_all-Exact P r.buckets r now x).0
  step-Exact P (persists fate key) r now x = persist-Exact P fate key r x
  step-Exact P closes r now x = record {
    used = x.used;
    number = x.number;
    apart = x.apart;
    delta = x.delta;
    settled = x.settled;
    waiting = x.waiting;
    past = x.past;
    snapped = x.snapped;
  }

-- What the bucket of a key held before the steps or after some of them.
abbrev pub Held : String → List RollupLine → List Step → String → RollupCounts → Type 0
Held me old [] k v = v ≡ counts_of k (after me old []).buckets
Held me old (x ∷ xs) k v = Held me old xs k v ⊎ (v ≡ counts_of k (after me old (x ∷ xs)).buckets)

now-Held :
    (me : String) (old : List RollupLine) (xs : List Step) (k : String)
    → Held me old xs k (counts_of k (after me old xs).buckets)
now-Held me old [] k = refl
now-Held me old (x ∷ xs) k = inr refl

-- No line has an identifier of this instance.
abbrev pub IsForeign : String → List RollupLine → Type 0
IsForeign me old = (n : ℕ) → holds (record { instance_name = me; sequence = n }) old ≡ false

fresh_start : (c : Counter) (n : ℕ) → n % width ≡ n → n ≡ plus n (count c no_counts)
fresh_start c n word = omega (arith, word, count-no_counts c)

pub after-Exact :
    (recent : String → Bool) (me : String) (c : Counter) (old : List RollupLine) (xs : List Step)
    → IsForeign me old
    → Exact recent me c (λ k. sum_read recent c k old) (Held me old xs) (after me old xs)
unfolding after counts_of
after-Exact recent me c old [] foreign = record {
  used = λ n held. ground (arith, foreign n, held);
  number = λ k p e. ground arith;
  apart = λ k j p q e g h. ground arith;
  delta = λ k p e. ground arith;
  settled = λ k kept e.
      fresh_start c (sum_read recent c k old) (count_word c (history k (read_lines recent [] old)));
  waiting = λ k p kept e. ground arith;
  past = λ k. refl;
  snapped = λ k p e. ground arith;
}
after-Exact recent me c old (x ∷ xs) foreign =
    weaken recent me c (λ k. sum_read recent c k old) (Held me old xs) (Held me old (x ∷ xs)) _
      (λ k v h. inl h)
      (step-Exact recent me c (λ k. sum_read recent c k old) (Held me old xs) x (after me old xs)
        (now-Held me old xs) (after-Exact recent me c old xs foreign))

abbrev total_read : (String → Bool) → Counter → String → RollupStore → ℕ
total_read recent c k r = sum_read recent c k r.log

value-Exact :
    (recent : String → Bool) (me : String) (c : Counter) (base : String → ℕ)
    (P : String → RollupCounts → Type 0) (r : RollupStore) (k : String)
    → recent k ≡ true
    → Exact recent me c base P r
    → (v : RollupCounts) × P k v × (total_read recent c k r ≡ plus (base k) (count c v))
value-Exact recent me c base P r k kept x = elim (Option-cases (lookup k r.pending)) [
  | inl empty ↦ (counts_of k r.flushed, x.past k, x.settled k kept empty)
  | inr (p, found) ↦
      let held = holds (record { instance_name = me; sequence = p.number }) r.log in
      (
        if held then p.snapshot else counts_of k r.flushed,
        if_both (P k) held p.snapshot (counts_of k r.flushed) (λ h. x.snapped k p found)
            (λ h. x.past k),
        x.waiting k p kept found,
      )
]

-- Whatever observations come and however the flushes between them end - a line may be refused, or
-- be on disk although its append reports an error, and is then written again - the lines that are
-- read for a recent key add up, in every counter, to what was there before and to what the key's
-- bucket held at some time. The lines that were there are not this instance's.
pub after-Held :
    (recent : String → Bool) (me : String) (c : Counter) (old : List RollupLine) (xs : List Step)
    (k : String)
    → IsForeign me old
    → recent k ≡ true
    → (v : RollupCounts) × Held me old xs k v
      × (sum_read recent c k (after me old xs).log ≡ plus (sum_read recent c k old) (count c v))
after-Held recent me c old xs k foreign kept =
    value-Exact recent me c (λ j. sum_read recent c j old) (Held me old xs) (after me old xs) k kept
      (after-Exact recent me c old xs foreign)
