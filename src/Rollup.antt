-- ===== src/Rollup.antt =====
-- Hourly aggregates of traffic, of rollups.go: `rollupCounts`, its sums and differences, and what
-- `observe` adds of one sample. An int64 is its 64 bits as a natural number. A map is the list of
-- its entries, nil is the empty one. `CostUSD`, the one float64, is left out; a rate of tokens is
-- rounded up, which no whole bound tells apart.
pub mod Counters
pub mod Store
pub mod Reading
pub mod Batches
pub mod Appends
pub mod Exact
pub mod Readiness
pub mod Complete
use claude_gateway.Prelude.{
  ℕ, suc, ◌+◌, ◌-◌, ◌%◌, ◌^◌, String, Bool, true, false, not, ◌&&◌, ◌||◌, Option, none, some, List,
  [], ◌∷◌, ltb, leb, ◌==◌, str_eq, if◌then◌else◌,
}
use claude_gateway.Usage.{TokenUsage, Telemetry}

abbrev pub width : ℕ
width = 2 ^ 64

-- `a + b` and `a - b` of two int64.
abbrev pub plus : ℕ → ℕ → ℕ
plus a b = (a + b) % width

abbrev pub minus : ℕ → ℕ → ℕ
minus a b = (a + (width - b % width)) % width

-- `a > b`, where `b` is not negative.
abbrev pub above : ℕ → ℕ → Bool
above a b = ltb b a && ltb a (2 ^ 63)

abbrev pub Counts : Type 0
Counts = List (String × ℕ)

-- `out[k] += v`
unfoldable pub bump : String → ℕ → Counts → Counts
bump k v [] = (k, plus 0 v) ∷ []
bump k v ((j, w) ∷ m) = if str_eq j k then (j, plus w v) ∷ m else (j, w) ∷ bump k v m

unfoldable pub bump_all : Counts → Counts → Counts
bump_all [] out = out
bump_all ((k, v) ∷ m) out = bump_all m (bump k v out)

unfoldable pub cut_all : Counts → Counts → Counts
cut_all [] out = out
cut_all ((k, v) ∷ m) out = cut_all m (bump k (minus 0 v) out)

unfoldable pub drop_zeros : Counts → Counts
drop_zeros [] = []
drop_zeros ((k, v) ∷ m) = if v == 0 then drop_zeros m else (k, v) ∷ drop_zeros m

unfoldable pub map_sub : Counts → Counts → Counts
map_sub a b = drop_zeros (cut_all b (bump_all a []))

unfoldable pub map_add : Counts → Counts → Counts
map_add dst [] = dst
map_add dst ((k, v) ∷ src) = map_add (if v == 0 then dst else bump k v dst) src

unfoldable pub slice_differences : List ℕ → List ℕ → List ℕ
slice_differences [] [] = []
slice_differences [] (y ∷ ys) = minus 0 y ∷ slice_differences [] ys
slice_differences (x ∷ xs) [] = plus 0 x ∷ slice_differences xs []
slice_differences (x ∷ xs) (y ∷ ys) = minus x y ∷ slice_differences xs ys

unfoldable pub all_zero : List ℕ → Bool
all_zero [] = true
all_zero (x ∷ xs) = x == 0 && all_zero xs

unfoldable pub slice_sub : List ℕ → List ℕ → List ℕ
slice_sub a b = let out = slice_differences a b in if all_zero out then [] else out

unfoldable pub slice_add : List ℕ → List ℕ → List ℕ
slice_add dst [] = dst
slice_add [] (y ∷ src) = plus 0 y ∷ slice_add [] src
slice_add (x ∷ dst) (y ∷ src) = plus x y ∷ slice_add dst src

unfoldable pub zeros : List ℕ → List ℕ
zeros [] = []
zeros (b ∷ bounds) = 0 ∷ zeros bounds

-- The bounds grow, so that the binary search finds the first that is large enough.
unfoldable pub histogram_observe : List ℕ → ℕ → List ℕ
histogram_observe [] value = 1 ∷ []
histogram_observe (b ∷ bounds) value =
    if leb value b then 1 ∷ zeros (b ∷ bounds) else 0 ∷ histogram_observe bounds value

abbrev pub rollup_latency_bounds : List ℕ
rollup_latency_bounds = 500 ∷ 1000 ∷ 2000 ∷ 3000 ∷ 5000 ∷ 8000 ∷ 15000 ∷ 30000 ∷ 60000 ∷ 120000 ∷ []

abbrev pub rollup_tps_bounds : List ℕ
rollup_tps_bounds = 20 ∷ 40 ∷ 60 ∷ 80 ∷ 100 ∷ 150 ∷ 200 ∷ 300 ∷ []

pub record RollupCounts : Type 0 where
  pub records : ℕ
  pub completions : ℕ
  pub successes : ℕ
  pub failures : ℕ
  pub fallbacks : ℕ
  pub cancels : ℕ
  pub count_tokens : ℕ
  pub input_tokens : ℕ
  pub output_tokens : ℕ
  pub cache_read_tokens : ℕ
  pub cache_write_tokens : ℕ
  pub failed_tokens : ℕ
  pub large_contexts : ℕ
  pub policy_skips : Counts
  pub failure_reasons : Counts
  pub header_latency : List ℕ
  pub first_content : List ℕ
  pub tps : List ℕ
  pub usage_known : Counts
  pub usage_totals : Counts

abbrev pub no_counts : RollupCounts
no_counts = record {
  records = 0;
  completions = 0;
  successes = 0;
  failures = 0;
  fallbacks = 0;
  cancels = 0;
  count_tokens = 0;
  input_tokens = 0;
  output_tokens = 0;
  cache_read_tokens = 0;
  cache_write_tokens = 0;
  failed_tokens = 0;
  large_contexts = 0;
  policy_skips = [];
  failure_reasons = [];
  header_latency = [];
  first_content = [];
  tps = [];
  usage_known = [];
  usage_totals = [];
}

-- The record whose fields are those of `a` and `b`, joined by an operation on numbers, one on maps
-- and one on slices.
abbrev combine :
    (ℕ → ℕ → ℕ)
    → (Counts → Counts → Counts)
    → (List ℕ → List ℕ → List ℕ)
    → RollupCounts
    → RollupCounts
    → RollupCounts
combine num map_by slice_by a b = record {
  records = num a.records b.records;
  completions = num a.completions b.completions;
  successes = num a.successes b.successes;
  failures = num a.failures b.failures;
  fallbacks = num a.fallbacks b.fallbacks;
  cancels = num a.cancels b.cancels;
  count_tokens = num a.count_tokens b.count_tokens;
  input_tokens = num a.input_tokens b.input_tokens;
  output_tokens = num a.output_tokens b.output_tokens;
  cache_read_tokens = num a.cache_read_tokens b.cache_read_tokens;
  cache_write_tokens = num a.cache_write_tokens b.cache_write_tokens;
  failed_tokens = num a.failed_tokens b.failed_tokens;
  large_contexts = num a.large_contexts b.large_contexts;
  policy_skips = map_by a.policy_skips b.policy_skips;
  failure_reasons = map_by a.failure_reasons b.failure_reasons;
  header_latency = slice_by a.header_latency b.header_latency;
  first_content = slice_by a.first_content b.first_content;
  tps = slice_by a.tps b.tps;
  usage_known = map_by a.usage_known b.usage_known;
  usage_totals = map_by a.usage_totals b.usage_totals;
}

unfoldable pub counts_sub : RollupCounts → RollupCounts → RollupCounts
counts_sub = combine minus map_sub slice_sub

unfoldable pub counts_add : RollupCounts → RollupCounts → RollupCounts
counts_add = combine plus map_add slice_add

abbrev pub is_nil {ℓ} : {A : Type ℓ} → List A → Bool
is_nil [] = true
is_nil (x ∷ xs) = false

unfoldable pub counts_zero : RollupCounts → Bool
counts_zero c =
    is_nil c.usage_known
    && is_nil c.usage_totals
    && c.cache_write_tokens == 0
    && c.failed_tokens == 0
    && c.large_contexts == 0
    && c.records == 0
    && c.completions == 0
    && c.successes == 0
    && c.failures == 0
    && c.fallbacks == 0
    && c.cancels == 0
    && c.count_tokens == 0
    && c.input_tokens == 0
    && c.output_tokens == 0
    && c.cache_read_tokens == 0
    && is_nil c.policy_skips
    && is_nil c.failure_reasons
    && is_nil c.header_latency
    && is_nil c.first_content
    && is_nil c.tps
