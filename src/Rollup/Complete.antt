-- ===== src/Rollup/Complete.antt =====
-- That appends which succeed bring the lines of rollups.go up to date.
use claude_gateway.Prelude.{
  String, Bool, true, none, List, [], ◌∷◌, ◌≡◌, refl, ap, subst, ◌∙◌, inl, inr, eq_iff, lookup,
  lookup-insert, lookup-erase, option_split, Option-cases, arith,
}
use claude_gateway.Rollup.{
  plus, RollupCounts, no_counts, counts_sub, counts_zero, map_sub, map_add, slice_sub, bump_all,
  cut_all, drop_zeros, slice_differences, all_zero,
}
use claude_gateway.Rollup.Counters.{Counter, count, count-counts_sub, count_zero, count_word}
use claude_gateway.Rollup.Store.{
  bucket_key, add_sample, RollupLine, PendingRollup, RollupStore, counts_of, Sample, observe,
  prepare, Fate, stored, refused, doubtful, advance, write_line, persist_batch, persist, Step,
  observes, prepares, persists, closes, step, after,
}
use claude_gateway.Rollup.Reading.{sum_read}
use claude_gateway.Rollup.Exact.{Held, IsForeign, after-Exact}
use claude_gateway.Rollup.Readiness.{Ready, prepare_all_same, all_stays-Ready, prepare_all-Ready}

-- Buckets are never dropped, so that one that is not there was never there.
persist_buckets :
    (me : String) (fate : Fate) (j : String) (r : RollupStore)
    → (persist me fate j r).buckets ≡ r.buckets
unfolding persist persist_batch advance write_line
persist_buckets me fate j r =
    option_split (λ (s : RollupStore). s.buckets ≡ r.buckets) (lookup j r.pending) r _ (λ h. refl)
      (λ p h. batch fate p)
  where
    batch : (fate : Fate) (p : PendingRollup) → (persist_batch me fate j p r).buckets ≡ r.buckets
    batch stored p = refl
    batch refused p = refl
    batch doubtful p = refl

observe_buckets :
    (sample : Sample) (k : String) (r : RollupStore)
    → lookup k (observe sample r).buckets ≡ none
    → lookup k r.buckets ≡ none
unfolding observe
observe_buckets sample k r e =
    let j = bucket_key sample r.buckets in
    ground (arith, e, lookup-insert j k (add_sample sample (counts_of j r.buckets)) r.buckets)

step_buckets :
    (me : String) (x : Step) (k : String) (r : RollupStore)
    → lookup k (step me x r).buckets ≡ none
    → lookup k r.buckets ≡ none
unfolding step prepare
step_buckets me (observes sample) k r e = observe_buckets sample k r e
step_buckets me prepares k r e = subst (λ m. lookup k m ≡ none) (prepare_all_same r.buckets r).0 e
step_buckets me (persists fate j) k r e =
    subst (λ m. lookup k m ≡ none) (persist_buckets me fate j r) e
step_buckets me closes k r e = e

absent :
    (me : String) (old : List RollupLine) (xs : List Step) (k : String) (v : RollupCounts)
    → lookup k (after me old xs).buckets ≡ none
    → Held me old xs k v
    → v ≡ no_counts
unfolding after counts_of
absent me old [] k v e held = held
absent me old (x ∷ xs) k v e (inl held) =
    absent me old xs k v (step_buckets me x k (after me old xs) e) held
absent me old (x ∷ xs) k v e (inr now) = now ∙ ground (arith, e)

stored_empty :
    (me : String) (k : String) (r : RollupStore) → lookup k (persist me stored k r).pending ≡ none
unfolding persist persist_batch advance write_line
stored_empty me k r =
    option_split (λ (s : RollupStore). lookup k s.pending ≡ none) (lookup k r.pending) r _ (λ h. h)
      (λ p h. ground (arith, lookup-erase k k r.pending, eq_iff k k))

stored_flushed :
    (me : String) (k : String) (p : PendingRollup) (r : RollupStore)
    → counts_of k (persist_batch me stored k p r).flushed ≡ p.snapshot
unfolding persist_batch advance write_line counts_of
stored_flushed me k p r = ground (arith, lookup-insert k k p.snapshot r.flushed, eq_iff k k)

no_difference :
    (c : Counter) (a b : RollupCounts) → counts_zero (counts_sub a b) ≡ true → count c b ≡ count c a
no_difference c a b h =
    omega (
      arith,
      count_zero c (counts_sub a b) h,
      count-counts_sub c a b,
      count_word c a,
      count_word c b,
    )

-- After an append that succeeds, all that the bucket of a ready key holds is flushed.
stored_counts :
    (me : String) (c : Counter) (k : String) (r : RollupStore)
    → Ready k r
    → count c (counts_of k (persist me stored k r).flushed) ≡ count c (counts_of k r.buckets)
unfolding persist Ready
stored_counts me c k r (inl (p, found, snap)) =
    option_split
      (λ (s : RollupStore). count c (counts_of k s.flushed) ≡ count c (counts_of k r.buckets))
      (lookup k r.pending) r _ (λ missing. ground (arith, found, missing))
      (λ q here.
        let same : p ≡ q = ground (arith, found, here) in
        ap (count c) (
          stored_flushed me k q r
          ∙ subst (λ (u : PendingRollup). u.snapshot ≡ counts_of k r.buckets) same snap))
stored_counts me c k r (inr (empty, nothing)) =
    option_split
      (λ (s : RollupStore). count c (counts_of k s.flushed) ≡ count c (counts_of k r.buckets))
      (lookup k r.pending) r _
      (λ missing. no_difference c (counts_of k r.buckets) (counts_of k r.flushed) nothing)
      (λ q here. ground (arith, empty, here))

nothing_left : counts_zero (counts_sub no_counts no_counts) ≡ true
unfolding counts_zero counts_sub map_sub map_add slice_sub bump_all cut_all drop_zeros
    slice_differences all_zero
nothing_left = refl

counts_missing :
    (k : String) (m : List (String × RollupCounts)) → lookup k m ≡ none → counts_of k m ≡ no_counts
unfolding counts_of
counts_missing k m e = ground (arith, e)

prepare_buckets : (r : RollupStore) → (prepare r).buckets ≡ r.buckets
unfolding prepare
prepare_buckets r = (prepare_all_same r.buckets r).0

prepare-Ready :
    (me : String) (old : List RollupLine) (xs : List Step) (k : String)
    → Held me old xs k (counts_of k (after me old xs).flushed)
    → lookup k (after me old xs).pending ≡ none
    → Ready k (prepare (after me old xs))
unfolding prepare Ready
prepare-Ready me old xs k past empty =
    let r = after me old xs in
    elim (Option-cases (lookup k r.buckets)) [
      | inr (v, found) ↦ prepare_all-Ready k v r.buckets r found empty
      | inl missing ↦
          let b : counts_of k r.buckets ≡ no_counts = counts_missing k r.buckets missing in
          let f : counts_of k r.flushed ≡ no_counts = absent me old xs k _ missing past in
          all_stays-Ready k r.buckets r (
            inr (
              empty,
              ap (λ a. counts_zero (counts_sub a (counts_of k r.flushed))) b
                  ∙ ap (λ a. counts_zero (counts_sub no_counts a)) f
                  ∙ nothing_left,
            ))
    ]

-- Whatever came before, once an append for the key succeeds, then batches are made and an append
-- succeeds again, the lines that are read for a recent key add up, in every counter, to what was
-- there before and all that its bucket holds: nothing observed is lost, and nothing counted twice.
-- The lines that were there before are not this instance's.
pub after-persists :
    (recent : String → Bool) (me : String) (c : Counter) (old : List RollupLine) (xs : List Step)
    (k : String)
    → IsForeign me old
    → recent k ≡ true
    → sum_read recent c k (after me old (persists stored k ∷ prepares ∷ persists stored k ∷ xs)).log
      ≡ plus (sum_read recent c k old) (count c (counts_of k (after me old xs).buckets))
unfolding after step
after-persists recent me c old xs k foreign kept =
    let first = persists stored k ∷ xs in
    let before = after-Exact recent me c old first foreign in
    let all = after-Exact recent me c old (persists stored k ∷ prepares ∷ first) foreign in
    let r0 = after me old xs in
    let r1 = persist me stored k r0 in
    let r2 = prepare r1 in
    all.settled k kept (stored_empty me k r2)
    ∙ ap (plus (sum_read recent c k old)) (
        stored_counts me c k r2
          (prepare-Ready me old first k (before.past k) (stored_empty me k r0))
        ∙ ap (λ m. count c (counts_of k m)) (prepare_buckets r1 ∙ persist_buckets me stored k r0))
