-- ===== src/Rollup/Store.antt =====
-- The store of the aggregates, `rollupStore` of rollups.go: what `observe` adds, the two halves of
-- `flush`, and the reading of the lines with `readRollupLines`. Between the appends of a flush the
-- mutex is free, so that an observation may come there. A key is the text of its fields. The day
-- files are one list of lines in the order of writing. A snapshot needs no clone, since values do
-- not change here; timers, the sweep of old files and the texts of errors are left out.
use claude_gateway.Prelude.{
  ℕ, suc, String, Bool, true, false, not, ◌&&◌, ◌||◌, Option, none, some, List, [], ◌∷◌, ◌++◌, leb,
  ◌==◌, str_eq, lookup, insert, erase, length, if◌then◌else◌,
}
use claude_gateway.Usage.{Telemetry}
use claude_gateway.Rollup.{
  plus, above, map_add, slice_add, histogram_observe, rollup_latency_bounds, rollup_tps_bounds,
  RollupCounts, no_counts, counts_sub, counts_zero,
}

pub data RecordKind : Type 0 where
  completion skip terminal counted attempt other_kind : RecordKind

-- What is read of a `metricsSample`. `overflow_key` is its key with the attribution
-- "attribution-overflow".
pub record Sample : Type 0 where
  pub key : String
  pub overflow_key : String
  pub kind : RecordKind
  pub usage : Telemetry
  pub input_tokens : ℕ
  pub output_tokens : ℕ
  pub cache_read_tokens : ℕ
  pub cache_write_tokens : ℕ
  pub success : Bool
  pub is_fallback : Bool
  pub status : ℕ
  pub failure_reason : String
  pub latency : ℕ
  pub first_content : ℕ
  pub tps : ℕ

abbrev pub cancel_metric_reason : String → Bool
cancel_metric_reason reason =
    str_eq reason "client_cancel" || str_eq reason "client_cancel_after_stall"

abbrev pub increment : ℕ → ℕ
increment n = plus n 1

-- One field of the usage, where it is known.
unfoldable pub add_usage_field : String → Option ℕ → RollupCounts → RollupCounts
add_usage_field field none b = b
add_usage_field field (some n) b = record b {
  usage_known = map_add b.usage_known ((field, 1) ∷ []);
  usage_totals = map_add b.usage_totals ((field, n) ∷ []);
}

unfoldable pub add_usage : Telemetry → RollupCounts → RollupCounts
add_usage none b = b
add_usage (some u) b =
    let known = add_usage_field "reasoningSubset" u.reasoning (
      add_usage_field "outputInclusive" u.output (
        add_usage_field "cacheCreation1h" u.cache_creation_1h (
          add_usage_field "cacheCreation5m" u.cache_creation_5m (
            add_usage_field "cacheCreation" u.cache_creation (
              add_usage_field "cacheRead" u.cache_read (
                add_usage_field "inputTotal" u.input_total
                  (add_usage_field "inputUncached" u.input_uncached b))))))) in
    if u.inconsistent
    then record known { usage_known = map_add known.usage_known (("inconsistent", 1) ∷ []) }
    else known

unfoldable pub add_histogram : List ℕ → ℕ → List ℕ → List ℕ
add_histogram bounds value seen =
    if above value 0 then slice_add seen (histogram_observe bounds value) else seen

abbrev pub context_tokens : Sample → ℕ
context_tokens s = plus (plus s.input_tokens s.cache_read_tokens) s.cache_write_tokens

unfoldable pub add_tokens : Sample → RollupCounts → RollupCounts
add_tokens s b = record b {
  input_tokens = plus b.input_tokens s.input_tokens;
  output_tokens = plus b.output_tokens s.output_tokens;
  cache_read_tokens = plus b.cache_read_tokens s.cache_read_tokens;
  cache_write_tokens = plus b.cache_write_tokens s.cache_write_tokens;
  large_contexts =
      if above (context_tokens s) 500000 then increment b.large_contexts else b.large_contexts;
  failed_tokens =
      if s.success
      then b.failed_tokens
      else plus b.failed_tokens (plus (context_tokens s) s.output_tokens);
}

unfoldable pub add_outcome : Sample → RollupCounts → RollupCounts
add_outcome s b =
    if s.success
    then record b { successes = increment b.successes }
    else record b { failures = increment b.failures }

unfoldable pub add_speed : Sample → RollupCounts → RollupCounts
add_speed s b =
    if s.success
    then record b {
      header_latency = add_histogram rollup_latency_bounds s.latency b.header_latency;
      first_content = add_histogram rollup_latency_bounds s.first_content b.first_content;
      tps = add_histogram rollup_tps_bounds s.tps b.tps;
    }
    else b

abbrev pub reason_or_unknown : String → String
reason_or_unknown reason = if str_eq reason "" then "unknown" else reason

abbrev pub is_skip : RecordKind → Bool
is_skip skip = true
is_skip _ = false

unfoldable pub add_kind : RecordKind → Sample → RollupCounts → RollupCounts
add_kind completion s b = add_speed s (
    add_outcome s
      (add_tokens s (add_usage s.usage (record b { completions = increment b.completions }))))
add_kind skip s b = record b {
  policy_skips = map_add b.policy_skips ((reason_or_unknown s.failure_reason, 1) ∷ []);
}
add_kind terminal s b = add_outcome s b
add_kind counted s b = record b { count_tokens = increment b.count_tokens }
add_kind attempt s b = add_outcome s b
add_kind other_kind s b = b

unfoldable pub add_flags : Sample → RollupCounts → RollupCounts
add_flags s b = record b {
  fallbacks = if s.is_fallback then increment b.fallbacks else b.fallbacks;
  cancels =
      if cancel_metric_reason s.failure_reason || s.status == 499
      then increment b.cancels
      else b.cancels;
  failure_reasons =
      if not s.success && not (str_eq s.failure_reason "") && not (is_skip s.kind)
      then map_add b.failure_reasons ((s.failure_reason, 1) ∷ [])
      else b.failure_reasons;
}

unfoldable pub add_sample : Sample → RollupCounts → RollupCounts
add_sample s b = add_flags s (add_kind s.kind s (record b { records = increment b.records }))

-- `instance` and the sequence number.
pub record LineId : Type 0 where
  pub instance_name : String
  pub sequence : ℕ

-- Older lines have no identifier.
pub record RollupLine : Type 0 where
  pub key : String
  pub id : Option LineId
  pub delta : RollupCounts

-- A batch that waits to be written; `number` is the sequence number of its line.
pub record PendingRollup : Type 0 where
  pub number : ℕ
  pub delta : RollupCounts
  pub snapshot : RollupCounts

pub record RollupStore : Type 0 where
  pub buckets : List (String × RollupCounts)
  pub flushed : List (String × RollupCounts)
  pub pending : List (String × PendingRollup)
  pub closed : Bool
  pub sequence : ℕ
  pub log : List RollupLine

-- The store that starts on the lines that are there.
abbrev pub new_store : List RollupLine → RollupStore
new_store old = record {
  buckets = [];
  flushed = [];
  pending = [];
  closed = false;
  sequence = 0;
  log = old;
}

unfoldable pub counts_of : String → List (String × RollupCounts) → RollupCounts
counts_of k m = elim (lookup k m) [ none ↦ no_counts | some counts ↦ counts ]

-- The key that a sample is counted under: new ones are bounded.
unfoldable pub bucket_key : Sample → List (String × RollupCounts) → String
bucket_key s m = elim (lookup s.key m) [
  | some counts ↦ s.key
  | none ↦ if leb 10000 (length m) then s.overflow_key else s.key
]

unfoldable pub observe : Sample → RollupStore → RollupStore
observe s r =
    if r.closed
    then r
    else let key = bucket_key s r.buckets in
      record r { buckets = insert key (add_sample s (counts_of key r.buckets)) r.buckets }

-- The first half of `flush`, for one key.
unfoldable pub prepare_key : String → RollupStore → RollupStore
prepare_key k r =
    let counts = counts_of k r.buckets in
    let delta = counts_sub counts (counts_of k r.flushed) in
    elim (lookup k r.pending) [
      | some batch ↦ r
      | none ↦ if counts_zero delta then r else record r {
        sequence = suc r.sequence;
        pending =
            insert k (record { number = suc r.sequence; delta = delta; snapshot = counts })
              r.pending;
      }
    ]

unfoldable pub prepare_all : List (String × RollupCounts) → RollupStore → RollupStore
prepare_all [] r = r
prepare_all ((k, counts) ∷ rest) r = prepare_all rest (prepare_key k r)

unfoldable pub prepare : RollupStore → RollupStore
prepare r = prepare_all r.buckets r

-- What becomes of a line that is appended: it is on disk and synchronised, it is not there, or it
-- is there although the append reports an error.
pub data Fate : Type 0 where
  stored : Fate
  refused : Fate
  doubtful : Fate

unfoldable pub advance : String → PendingRollup → RollupStore → RollupStore
advance k p r = record r { flushed = insert k p.snapshot r.flushed; pending = erase k r.pending }

unfoldable pub write_line : RollupLine → RollupStore → RollupStore
write_line l r = record r { log = r.log ++ l ∷ [] }

module _ (instance_name : String) where
  abbrev pub line_of : String → PendingRollup → RollupLine
  line_of k p = record {
    key = k;
    id = some (record { instance_name = instance_name; sequence = p.number });
    delta = p.delta;
  }

  -- The second half of `flush`, for one key.
  unfoldable pub persist_batch : Fate → String → PendingRollup → RollupStore → RollupStore
  persist_batch stored k p r = advance k p (write_line (line_of k p) r)
  persist_batch refused k p r = r
  persist_batch doubtful k p r = write_line (line_of k p) r

  unfoldable pub persist : Fate → String → RollupStore → RollupStore
  persist fate k r = elim (lookup k r.pending) [ none ↦ r | some p ↦ persist_batch fate k p r ]

abbrev pub close_store : RollupStore → RollupStore
close_store r = record r { closed = true }

unfoldable pub same_id : LineId → LineId → Bool
same_id a b = str_eq a.instance_name b.instance_name && a.sequence == b.sequence

unfoldable pub seen : LineId → List LineId → Bool
seen i [] = false
seen i (j ∷ js) = same_id j i || seen i js

-- `readRollupLines`: each identifier once, and of those the recent hours.
unfoldable pub read_lines : (String → Bool) → List LineId → List RollupLine → List RollupLine
read_lines recent known [] = []
read_lines recent known (l ∷ ls) = elim l.id [
  | none ↦ let later = read_lines recent known ls in if recent l.key then l ∷ later else later
  | some i ↦
      let later = read_lines recent (i ∷ known) ls in
      if seen i known then read_lines recent known ls else if recent l.key then l ∷ later else later
]

-- The calls in the order in which they come; `prepares` and `persists` are the halves of a flush.
pub data Step : Type 0 where
  observes : Sample → Step
  prepares : Step
  persists : (fate : Fate) → (key : String) → Step
  closes : Step

unfoldable pub step : String → Step → RollupStore → RollupStore
step instance_name (observes sample) r = observe sample r
step instance_name prepares r = prepare r
step instance_name (persists fate key) r = persist instance_name fate key r
step instance_name closes r = close_store r

-- The store after the steps, the latest of which stands first.
unfoldable pub after : String → List RollupLine → List Step → RollupStore
after instance_name old [] = new_store old
after instance_name old (x ∷ xs) = step instance_name x (after instance_name old xs)
