-- ===== src/Usage.antt =====
-- The token counts that an upstream reports, of usage_tokens.go: `tokenUsage` and what
-- `usageTelemetry` keeps of the payloads of a stream. A count that is absent is `none`. The
-- payloads are decoded JSON, so that a number is a float64; a whole one below 2^63 is a count.
pub mod Counts
pub mod Coherence
pub mod Precedence
use claude_gateway.Prelude.{
  ℕ, ◌+◌, ◌-◌, String, Bool, true, false, not, ◌&&◌, ◌||◌, Option, none, some, List, [], ◌∷◌, ltb,
  leb, ◌==◌, if◌then◌else◌,
}
use claude_gateway.Json.{Value, Members, number, pos, get, has, as_object, as_members}

pub data Source : Type 0 where
  anthropic : Source
  openai_chat : Source

abbrev pub is_openai : Source → Bool
is_openai anthropic = false
is_openai openai_chat = true

pub record TokenUsage : Type 0 where
  pub source : Source
  pub input_uncached : Option ℕ
  pub input_total : Option ℕ
  pub cache_read : Option ℕ
  pub cache_creation : Option ℕ
  pub cache_creation_5m : Option ℕ
  pub cache_creation_1h : Option ℕ
  pub output : Option ℕ
  pub reasoning : Option ℕ
  pub inconsistent : Bool

abbrev pub new_usage : Source → TokenUsage
new_usage source = record {
  source = source;
  input_uncached = none;
  input_total = none;
  cache_read = none;
  cache_creation = none;
  cache_creation_5m = none;
  cache_creation_1h = none;
  output = none;
  reasoning = none;
  inconsistent = false;
}

abbrev pub max_int64 : ℕ
max_int64 = 9223372036854775807

unfoldable pub count_pointer : Value → Option ℕ
count_pointer (number (pos n)) = if ltb max_int64 n then none else some n
count_pointer _ = none

unfoldable pub assign_count : Option ℕ → Members → String → Option ℕ
assign_count target fields key = if has key fields then count_pointer (get key fields) else target

unfoldable pub payload_usage : Members → Option Members
payload_usage payload = elim (as_object (get "usage" (as_members (get "message" payload)))) [
  | some nested ↦ some nested
  | none ↦ as_object (get "usage" payload)
]

-- The sum of `sum` and the values, none if it passes the largest int64.
unfoldable pub sum_from : ℕ → List ℕ → Option ℕ
sum_from sum [] = some sum
sum_from sum (n ∷ ns) = if ltb (max_int64 - n) sum then none else sum_from (sum + n) ns

abbrev pub safe_usage_sum : List ℕ → Option ℕ
safe_usage_sum values = sum_from 0 values

-- Whether `total` is not the sum, where there is one.
unfoldable pub differs : Option ℕ → ℕ → Bool
differs none total = true
differs (some sum) total = not (sum == total)

unfoldable pub exceeds : Option ℕ → Option ℕ → Bool
exceeds (some part) (some whole) = ltb whole part
exceeds _ _ = false

unfoldable pub split_differs : Option ℕ → Option ℕ → Option ℕ → Bool
split_differs (some whole) (some short) (some long) =
    differs (safe_usage_sum (short ∷ long ∷ [])) whole
split_differs _ _ _ = false

unfoldable pub check_usage_subsets : TokenUsage → TokenUsage
check_usage_subsets u =
    if exceeds u.reasoning u.output
      || split_differs u.cache_creation u.cache_creation_5m u.cache_creation_1h
    then record u { inconsistent = true }
    else u

unfoldable pub anthropic_total : Option ℕ → Option ℕ → Option ℕ → Option ℕ
anthropic_total (some uncached) (some read) (some creation) =
    safe_usage_sum (uncached ∷ read ∷ creation ∷ [])
anthropic_total _ _ _ = none

unfoldable pub assign_anthropic : Members → TokenUsage → TokenUsage
assign_anthropic usage u =
    let nested = as_members (get "cache_creation" usage) in
    let uncached = assign_count u.input_uncached usage "input_tokens" in
    let read = assign_count u.cache_read usage "cache_read_input_tokens" in
    let creation = assign_count u.cache_creation usage "cache_creation_input_tokens" in
    record u {
      input_uncached = uncached;
      input_total = anthropic_total uncached read creation;
      cache_read = read;
      cache_creation = creation;
      cache_creation_5m = assign_count u.cache_creation_5m nested "ephemeral_5m_input_tokens";
      cache_creation_1h = assign_count u.cache_creation_1h nested "ephemeral_1h_input_tokens";
      output = assign_count u.output usage "output_tokens";
      reasoning = assign_count u.reasoning usage "reasoning_tokens";
    }

-- What a stream has reported so far.
abbrev pub Telemetry : Type 0
Telemetry = Option TokenUsage

unfoldable pub or_new : Telemetry → TokenUsage
or_new none = new_usage anthropic
or_new (some u) = u

abbrev pub from_openai : Telemetry → Bool
from_openai none = false
from_openai (some u) = is_openai u.source

unfoldable pub observe_anthropic : Members → Telemetry → Telemetry
observe_anthropic payload t = elim (payload_usage payload) [
  | none ↦ t
  | some usage ↦
      if from_openai t then t else some (check_usage_subsets (assign_anthropic usage (or_new t)))
]

unfoldable pub assign_openai : Members → TokenUsage → TokenUsage
assign_openai usage u = record u {
  input_total = assign_count u.input_total usage "prompt_tokens";
  input_uncached = assign_count u.input_uncached usage "prompt_cache_miss_tokens";
  output = assign_count u.output usage "completion_tokens";
  cache_read =
      assign_count (assign_count u.cache_read usage "prompt_cache_hit_tokens")
        (as_members (get "prompt_tokens_details" usage)) "cached_tokens";
  cache_creation = assign_count u.cache_creation usage "cache_creation_input_tokens";
  reasoning =
      assign_count u.reasoning (as_members (get "completion_tokens_details" usage))
        "reasoning_tokens";
}

abbrev pub is_other : Option ℕ → ℕ → Bool
is_other none n = false
is_other (some m) n = not (m == n)

-- The total includes what was read from the cache.
unfoldable pub uncached_rest : Option ℕ → Option ℕ → TokenUsage → TokenUsage
uncached_rest (some total) (some read) u =
    if ltb total read then record u { inconsistent = true; input_uncached = none } else record u {
      inconsistent = u.inconsistent || is_other u.input_uncached (total - read);
      input_uncached = some (total - read);
    }
uncached_rest _ _ u = u

unfoldable pub own_openai : Telemetry → TokenUsage
own_openai t = elim t [
  | none ↦ new_usage openai_chat
  | some u ↦ if is_openai u.source then u else new_usage openai_chat
]

unfoldable pub add_openai : Members → TokenUsage → TokenUsage
add_openai usage u =
    let v = assign_openai usage u in
    check_usage_subsets (uncached_rest v.input_total v.cache_read v)

unfoldable pub observe_openai : Members → Telemetry → Telemetry
observe_openai payload t = elim (as_object (get "usage" payload)) [
  | none ↦ some (own_openai t)
  | some usage ↦ some (add_openai usage (own_openai t))
]

abbrev pub reported_count : Option ℕ → ℕ
reported_count none = 0
reported_count (some n) = n

-- The counts of a sample, of `metricsSample`.
pub record SampleTokens : Type 0 where
  pub input_tokens : ℕ
  pub output_tokens : ℕ
  pub cache_read_tokens : ℕ
  pub cache_write_tokens : ℕ

unfoldable pub apply_token_usage : Telemetry → SampleTokens → SampleTokens
apply_token_usage none sample = sample
apply_token_usage (some u) sample = record {
  input_tokens = reported_count u.input_uncached;
  output_tokens = reported_count u.output;
  cache_read_tokens = reported_count u.cache_read;
  cache_write_tokens = reported_count u.cache_creation;
}

-- The payloads in the order in which they are observed, each as one of the two.
pub data Observation : Type 0 where
  by_anthropic : Members → Observation
  by_openai : Members → Observation

unfoldable pub observe : Observation → Telemetry → Telemetry
observe (by_anthropic payload) t = observe_anthropic payload t
observe (by_openai payload) t = observe_openai payload t

unfoldable pub run : List Observation → Telemetry → Telemetry
run [] t = t
run (o ∷ os) t = run os (observe o t)
