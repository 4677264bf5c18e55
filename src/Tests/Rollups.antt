-- ===== src/Tests/Rollups.antt =====
-- Runs of the hourly aggregates, and the theorems about them applied.
use claude_gateway.Prelude.{String, Bool, true, false, none, List, [], ◌∷◌, ◌≡◌, refl}
use claude_gateway.Rollup.{
  plus, bump, bump_all, cut_all, drop_zeros, map_sub, map_add, slice_differences, all_zero,
  slice_sub, slice_add, zeros, histogram_observe, RollupCounts, no_counts, counts_sub, counts_add,
  counts_zero,
}
use claude_gateway.Rollup.Counters.{completions, count, at, amount, count-counts_add-counts_sub}
use claude_gateway.Rollup.Store.{
  refused, Sample, completion, add_usage, add_usage_field, add_histogram, add_tokens, add_outcome,
  add_speed, add_kind, add_flags, add_sample, counts_of, bucket_key, observe, prepare_key,
  prepare_all, prepare, stored, doubtful, advance, write_line, persist_batch, persist, same_id,
  seen, read_lines, Step, observes, prepares, persists, step, after,
}
use claude_gateway.Rollup.Reading.{history, holds, sum_read}
use claude_gateway.Rollup.Exact.{Held, after-Held}
use claude_gateway.Rollup.Complete.{after-persists}

abbrev sample : Sample
sample = record {
  key = "2026-01-01T10 opus";
  overflow_key = "2026-01-01T10 opus overflow";
  kind = completion;
  usage = none;
  input_tokens = 10;
  output_tokens = 5;
  cache_read_tokens = 0;
  cache_write_tokens = 0;
  success = true;
  is_fallback = false;
  status = 200;
  failure_reason = "";
  latency = 700;
  first_content = 900;
  tps = 0;
}

abbrev every_hour : String → Bool
every_hour key = true

-- The latest step first: a sample, an append whose error hides that the line is on disk, another
-- sample, and the append again.
abbrev steps : List Step
steps =
    persists stored sample.key
    ∷ prepares
    ∷ observes sample
    ∷ persists doubtful sample.key
    ∷ prepares
    ∷ observes sample
    ∷ []

written_once : sum_read every_hour completions sample.key (after "1-1" [] steps).log ≡ 1
unfolding bump bump_all cut_all drop_zeros map_sub map_add slice_differences all_zero slice_sub
    slice_add zeros histogram_observe counts_sub counts_add counts_zero count at amount add_usage
    add_usage_field add_histogram add_tokens add_outcome add_speed add_kind add_flags add_sample
    counts_of bucket_key observe prepare_key prepare_all prepare advance write_line persist_batch
    persist same_id seen read_lines step after history
written_once = refl

after-Held_example :
    (v : RollupCounts) × Held "1-1" [] steps sample.key v
    × (sum_read every_hour completions sample.key (after "1-1" [] steps).log
        ≡ plus (sum_read every_hour completions sample.key []) (count completions v))
unfolding holds
after-Held_example = after-Held every_hour "1-1" completions [] steps sample.key (λ n. refl) refl

abbrev counted_once : RollupCounts
counted_once = record no_counts { completions = 1; header_latency = 0 ∷ 1 ∷ [] }

count-counts_add-counts_sub_example :
    count completions (counts_add no_counts (counts_sub counted_once no_counts))
    ≡ count completions counted_once
count-counts_add-counts_sub_example = count-counts_add-counts_sub completions counted_once no_counts

-- Two samples, and a flush in which the first append is refused.
abbrev earlier : List Step
earlier = persists refused sample.key ∷ prepares ∷ observes sample ∷ observes sample ∷ []

two_completions : count completions (counts_of sample.key (after "1-1" [] earlier).buckets) ≡ 2
unfolding bump bump_all cut_all drop_zeros map_sub map_add slice_differences all_zero slice_sub
    slice_add zeros histogram_observe counts_sub counts_zero count at amount add_usage
    add_usage_field add_histogram add_tokens add_outcome add_speed add_kind add_flags add_sample
    counts_of bucket_key observe prepare_key prepare_all prepare advance write_line persist_batch
    persist step after
two_completions = refl

after-persists_example :
    sum_read every_hour completions sample.key
      (after "1-1" []
        (persists stored sample.key ∷ prepares ∷ persists stored sample.key ∷ earlier)).log
    ≡ plus
        (sum_read every_hour completions sample.key [])
        (count completions (counts_of sample.key (after "1-1" [] earlier).buckets))
unfolding holds
after-persists_example =
    after-persists every_hour "1-1" completions [] earlier sample.key (λ n. refl) refl
