-- ===== src/Usage/Coherence.antt =====
-- The counts that the observations of usage_tokens.go leave, in whatever order they come.
use claude_gateway.Prelude.{
  ℕ, ◌-◌, ◌≤◌, true, false, Option, none, some, List, [], ◌∷◌, ltb, ◌≡◌, refl, sym, subst, ◌∙◌,
  if_both, option_both, arith,
}
use claude_gateway.Json.{Members, get, as_object, as_members}
use claude_gateway.Usage.{
  anthropic, openai_chat, is_openai, TokenUsage, new_usage, max_int64, assign_count, payload_usage,
  check_usage_subsets, assign_anthropic, Telemetry, or_new, observe_anthropic, assign_openai,
  uncached_rest, own_openai, add_openai, observe_openai, Observation, by_anthropic, by_openai,
  observe, run,
}
use claude_gateway.Usage.Counts.{
  IsBounded, IsCoherent, IsCount, HasTotal, none-IsCount, assign_count-IsCount,
  anthropic_total-IsCount, anthropic_total_parts, check_usage_subsets-IsCoherent,
  new_usage-IsCoherent, Sound,
}

assign_anthropic-IsBounded :
    (usage : Members) (u : TokenUsage) → IsBounded u → IsBounded (assign_anthropic usage u)
unfolding assign_anthropic
assign_anthropic-IsBounded usage u b =
    let nested = as_members (get "cache_creation" usage) in
    let creation =
      assign_count-IsCount u.cache_creation usage "cache_creation_input_tokens" b.creation in
    record {
      uncached = assign_count-IsCount u.input_uncached usage "input_tokens" b.uncached;
      total =
          anthropic_total-IsCount (assign_count u.input_uncached usage "input_tokens")
            (assign_count u.cache_read usage "cache_read_input_tokens")
            (assign_count u.cache_creation usage "cache_creation_input_tokens") creation;
      read = assign_count-IsCount u.cache_read usage "cache_read_input_tokens" b.read;
      creation = creation;
      creation_5m =
          assign_count-IsCount u.cache_creation_5m nested "ephemeral_5m_input_tokens" b.creation_5m;
      creation_1h =
          assign_count-IsCount u.cache_creation_1h nested "ephemeral_1h_input_tokens" b.creation_1h;
      output = assign_count-IsCount u.output usage "output_tokens" b.output;
      reasoning = assign_count-IsCount u.reasoning usage "reasoning_tokens" b.reasoning;
    }

assign_anthropic-HasTotal :
    (usage : Members) (u : TokenUsage) → HasTotal anthropic (assign_anthropic usage u)
unfolding assign_anthropic
assign_anthropic-HasTotal usage u t e =
    anthropic_total_parts (assign_count u.input_uncached usage "input_tokens")
      (assign_count u.cache_read usage "cache_read_input_tokens")
      (assign_count u.cache_creation usage "cache_creation_input_tokens") t e

assign_anthropic_source :
    (usage : Members) (u : TokenUsage) → (assign_anthropic usage u).source ≡ u.source
unfolding assign_anthropic
assign_anthropic_source usage u = refl

source_of : (u : TokenUsage) → is_openai u.source ≡ false → u.source ≡ anthropic
source_of u h = ground arith

anthropic-IsCoherent :
    (usage : Members) (u : TokenUsage)
    → u.source ≡ anthropic
    → IsCoherent u
    → IsCoherent (check_usage_subsets (assign_anthropic usage u))
anthropic-IsCoherent usage u from c =
    check_usage_subsets-IsCoherent (assign_anthropic usage u)
      (assign_anthropic-IsBounded usage u c.bounded)
      (subst (λ s. HasTotal s (assign_anthropic usage u))
        (sym (assign_anthropic_source usage u ∙ from)) (assign_anthropic-HasTotal usage u))

held : (u : TokenUsage) → IsCoherent u → Sound (some u)
held u c = λ v e. subst IsCoherent (ground arith) c

observe_anthropic-Sound :
    (payload : Members) (t : Telemetry) → Sound t → Sound (observe_anthropic payload t)
unfolding observe_anthropic or_new
observe_anthropic-Sound payload none sound =
    option_both Sound (payload_usage payload) none _ sound (λ usage.
      held (check_usage_subsets (assign_anthropic usage (new_usage anthropic)))
        (anthropic-IsCoherent usage (new_usage anthropic) refl (new_usage-IsCoherent anthropic)))
observe_anthropic-Sound payload (some u) sound =
    option_both Sound (payload_usage payload) (some u) _ sound (λ usage.
      if_both Sound (is_openai u.source) (some u) _ (λ h. sound)
        (λ other.
          held (check_usage_subsets (assign_anthropic usage u))
            (anthropic-IsCoherent usage u (source_of u other) (sound u refl))))

assign_openai-IsBounded :
    (usage : Members) (u : TokenUsage) → IsBounded u → IsBounded (assign_openai usage u)
unfolding assign_openai
assign_openai-IsBounded usage u b = record {
  uncached = assign_count-IsCount u.input_uncached usage "prompt_cache_miss_tokens" b.uncached;
  total = assign_count-IsCount u.input_total usage "prompt_tokens" b.total;
  read =
      assign_count-IsCount (assign_count u.cache_read usage "prompt_cache_hit_tokens")
        (as_members (get "prompt_tokens_details" usage)) "cached_tokens"
        (assign_count-IsCount u.cache_read usage "prompt_cache_hit_tokens" b.read);
  creation = assign_count-IsCount u.cache_creation usage "cache_creation_input_tokens" b.creation;
  creation_5m = b.creation_5m;
  creation_1h = b.creation_1h;
  output = assign_count-IsCount u.output usage "completion_tokens" b.output;
  reasoning =
      assign_count-IsCount u.reasoning (as_members (get "completion_tokens_details" usage))
        "reasoning_tokens" b.reasoning;
}

rest-IsCount : (total read : ℕ) → total ≤ max_int64 → IsCount (some (total - read))
rest-IsCount total read h n e = ground arith

uncached_rest-IsBounded :
    (x y : Option ℕ) (u : TokenUsage) → IsCount x → IsBounded u → IsBounded (uncached_rest x y u)
unfolding uncached_rest
uncached_rest-IsBounded none y u h b = b
uncached_rest-IsBounded (some total) none u h b = b
uncached_rest-IsBounded (some total) (some read) u h b =
    if_both IsBounded (ltb total read) (record u { inconsistent = true; input_uncached = none }) _
      (λ e. record {
        uncached = none-IsCount;
        total = b.total;
        read = b.read;
        creation = b.creation;
        creation_5m = b.creation_5m;
        creation_1h = b.creation_1h;
        output = b.output;
        reasoning = b.reasoning;
      })
      (λ e. record {
        uncached = rest-IsCount total read (h total refl);
        total = b.total;
        read = b.read;
        creation = b.creation;
        creation_5m = b.creation_5m;
        creation_1h = b.creation_1h;
        output = b.output;
        reasoning = b.reasoning;
      })

uncached_rest-HasTotal :
    (x y : Option ℕ) (u : TokenUsage)
    → x ≡ u.input_total
    → y ≡ u.cache_read
    → HasTotal openai_chat (uncached_rest x y u)
unfolding uncached_rest
uncached_rest-HasTotal none y u p q fine t c total read = ground arith
uncached_rest-HasTotal (some m) none u p q fine t c total read = ground arith
uncached_rest-HasTotal (some m) (some n) u p q fine t c total read = ground arith

uncached_rest_source : (x y : Option ℕ) (u : TokenUsage) → (uncached_rest x y u).source ≡ u.source
unfolding uncached_rest
uncached_rest_source x y u = ground arith

assign_openai_source :
    (usage : Members) (u : TokenUsage) → (assign_openai usage u).source ≡ u.source
unfolding assign_openai
assign_openai_source usage u = refl

add_openai-IsCoherent :
    (usage : Members) (u : TokenUsage)
    → u.source ≡ openai_chat
    → IsCoherent u
    → IsCoherent (add_openai usage u)
unfolding add_openai
add_openai-IsCoherent usage u from c =
    let v = assign_openai usage u in
    let b = assign_openai-IsBounded usage u c.bounded in
    let w = uncached_rest v.input_total v.cache_read v in
    check_usage_subsets-IsCoherent w
      (uncached_rest-IsBounded v.input_total v.cache_read v b.total b)
      (subst (λ s. HasTotal s w)
        (sym
          (uncached_rest_source v.input_total v.cache_read v ∙ assign_openai_source usage u ∙ from))
        (uncached_rest-HasTotal v.input_total v.cache_read v refl refl))

own_openai_source : (t : Telemetry) → (own_openai t).source ≡ openai_chat
unfolding own_openai
own_openai_source none = refl
own_openai_source (some u) = ground arith

own_openai-IsCoherent : (t : Telemetry) → Sound t → IsCoherent (own_openai t)
unfolding own_openai
own_openai-IsCoherent none sound = new_usage-IsCoherent openai_chat
own_openai-IsCoherent (some u) sound =
    if_both IsCoherent (is_openai u.source) u (new_usage openai_chat) (λ h. sound u refl)
      (λ h. new_usage-IsCoherent openai_chat)

observe_openai-Sound :
    (payload : Members) (t : Telemetry) → Sound t → Sound (observe_openai payload t)
unfolding observe_openai
observe_openai-Sound payload t sound =
    let own = own_openai-IsCoherent t sound in
    option_both Sound (as_object (get "usage" payload)) (some (own_openai t)) _
      (held (own_openai t) own)
      (λ usage.
        held (add_openai usage (own_openai t))
          (add_openai-IsCoherent usage (own_openai t) (own_openai_source t) own))

run-Sound : (os : List Observation) (t : Telemetry) → Sound t → Sound (run os t)
unfolding run observe
run-Sound [] t sound = sound
run-Sound (by_anthropic p ∷ os) t sound =
    run-Sound os (observe_anthropic p t) (observe_anthropic-Sound p t sound)
run-Sound (by_openai p ∷ os) t sound =
    run-Sound os (observe_openai p t) (observe_openai-Sound p t sound)

-- Whatever payloads a stream has, in whatever order: every count that is known fits an int64. With
-- Anthropic a known total is the sum of the three input counts. With OpenAI, unless the usage is
-- marked as inconsistent, what was read from the cache is part of the total and the rest of the
-- total is the uncached input. Unless it is marked, the reasoning is part of the output and the two
-- kinds of cache creation add up to the whole.
pub run-IsCoherent : (os : List Observation) (u : TokenUsage) → run os none ≡ some u → IsCoherent u
run-IsCoherent os u e = run-Sound os none (λ v impossible. ground arith) u e
