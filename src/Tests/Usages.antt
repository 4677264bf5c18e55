-- ===== src/Tests/Usages.antt =====
-- Runs of the token counts, and the theorems about them applied.
use claude_gateway.Prelude.{none, some, List, [], ◌∷◌, ◌≡◌, refl, false}
use claude_gateway.Json.{get, has, pos, Members, number, object, no_members, member}
use claude_gateway.Usage.{
  TokenUsage, count_pointer, assign_count, payload_usage, sum_from, differs, exceeds, split_differs,
  check_usage_subsets, anthropic_total, assign_anthropic, or_new, observe_anthropic, assign_openai,
  uncached_rest, own_openai, add_openai, observe_openai, by_anthropic, by_openai, observe, run,
  Observation, openai_chat, SampleTokens, apply_token_usage,
}
use claude_gateway.Usage.Counts.{IsCoherent}
use claude_gateway.Usage.Coherence.{run-IsCoherent}
use claude_gateway.Usage.Precedence.{openai_only, run-openai_only}

abbrev with_usage : Members → Members
with_usage usage = member "usage" (object usage) no_members

abbrev openai_payload : Members
openai_payload = with_usage (
    member "prompt_tokens" (number (pos 100)) (
      member "prompt_cache_hit_tokens" (number (pos 40))
        (member "completion_tokens" (number (pos 7)) no_members)))

abbrev synthetic_payload : Members
synthetic_payload =
    with_usage
      (member "input_tokens" (number (pos 60)) (member "output_tokens" (number (pos 9)) no_members))

abbrev observations : List Observation
observations =
    by_anthropic synthetic_payload ∷ by_openai openai_payload ∷ by_anthropic synthetic_payload ∷ []

abbrev openai_usage : TokenUsage
openai_usage = record {
  source = openai_chat;
  input_uncached = some 60;
  input_total = some 100;
  cache_read = some 40;
  cache_creation = none;
  cache_creation_5m = none;
  cache_creation_1h = none;
  output = some 7;
  reasoning = none;
  inconsistent = false;
}

openai_counted : run observations none ≡ some openai_usage
unfolding get has count_pointer assign_count payload_usage sum_from differs exceeds split_differs
    check_usage_subsets anthropic_total assign_anthropic or_new observe_anthropic assign_openai
    uncached_rest own_openai add_openai observe_openai observe run
openai_counted = refl

run-IsCoherent_example : IsCoherent openai_usage
unfolding get has count_pointer assign_count payload_usage sum_from differs exceeds split_differs
    check_usage_subsets anthropic_total assign_anthropic or_new observe_anthropic assign_openai
    uncached_rest own_openai add_openai observe_openai observe run
run-IsCoherent_example = run-IsCoherent observations openai_usage refl

run-openai_only_example : run observations none ≡ run (openai_only observations) none
run-openai_only_example = run-openai_only observations refl

abbrev empty_sample : SampleTokens
empty_sample = record {
  input_tokens = 0;
  output_tokens = 0;
  cache_read_tokens = 0;
  cache_write_tokens = 0;
}

openai_applied : apply_token_usage (some openai_usage) empty_sample ≡ record {
  input_tokens = 60;
  output_tokens = 7;
  cache_read_tokens = 40;
  cache_write_tokens = 0;
}
unfolding apply_token_usage
openai_applied = refl
