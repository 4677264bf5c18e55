-- ===== src/Usage/Precedence.antt =====
-- Which upstream's counts win, of usage_tokens.go.
use claude_gateway.Prelude.{
  Bool, true, false, none, some, List, [], ◌∷◌, ◌≡◌, refl, sym, ap, ◌∙◌, if◌then◌else◌, option_both,
  arith,
}
use claude_gateway.Json.{Members, get, as_object}
use claude_gateway.Usage.{
  openai_chat, is_openai, TokenUsage, new_usage, payload_usage, check_usage_subsets,
  assign_anthropic, Telemetry, or_new, from_openai, observe_anthropic, assign_openai, uncached_rest,
  own_openai, add_openai, observe_openai, Observation, by_anthropic, by_openai, observe, run,
}

abbrev pub is_by_openai : Observation → Bool
is_by_openai (by_openai payload) = true
is_by_openai (by_anthropic payload) = false

abbrev pub openai_only : List Observation → List Observation
openai_only [] = []
openai_only (o ∷ os) = if is_by_openai o then o ∷ openai_only os else openai_only os

abbrev pub any_openai : List Observation → Bool
any_openai [] = false
any_openai (o ∷ os) = if is_by_openai o then true else any_openai os

ignored :
    (payload : Members) (t : Telemetry) → from_openai t ≡ true → observe_anthropic payload t ≡ t
unfolding observe_anthropic
ignored payload t from =
    option_both (λ r. r ≡ t) (payload_usage payload) t _ refl (λ usage. ground (arith, from))

other_kept :
    (usage : Members) (t : Telemetry)
    → from_openai t ≡ false
    → from_openai (
        if from_openai t then t else some (check_usage_subsets (assign_anthropic usage (or_new t))))
      ≡ false
unfolding check_usage_subsets assign_anthropic or_new
other_kept usage none h = ground arith
other_kept usage (some u) h = ground arith

still_other :
    (payload : Members) (t : Telemetry)
    → from_openai t ≡ false
    → from_openai (observe_anthropic payload t) ≡ false
unfolding observe_anthropic
still_other payload t other =
    option_both (λ r. from_openai r ≡ false) (payload_usage payload) t _ other
      (λ usage. other_kept usage t other)

renewed : (t : Telemetry) → from_openai t ≡ false → own_openai t ≡ new_usage openai_chat
unfolding own_openai
renewed none h = refl
renewed (some u) h = ground (arith, h)

fresh_start :
    (payload : Members) (t r : Telemetry)
    → from_openai t ≡ false
    → from_openai r ≡ false
    → observe_openai payload t ≡ observe_openai payload r
unfolding observe_openai
fresh_start payload t r p q =
    ap
      (λ own. elim (as_object (get "usage" payload)) [
        | none ↦ some own
        | some usage ↦ some (add_openai usage own)
      ])
      (renewed t p ∙ sym (renewed r q))

owned : (t : Telemetry) → is_openai (own_openai t).source ≡ true
unfolding own_openai
owned none = refl
owned (some u) = ground arith

added :
    (usage : Members) (u : TokenUsage)
    → is_openai u.source ≡ true
    → is_openai (add_openai usage u).source ≡ true
unfolding add_openai check_usage_subsets uncached_rest assign_openai
added usage u h = ground arith

now_openai : (payload : Members) (t : Telemetry) → from_openai (observe_openai payload t) ≡ true
unfolding observe_openai
now_openai payload t =
    option_both (λ r. from_openai r ≡ true) (as_object (get "usage" payload)) (some (own_openai t))
      _ (owned t) (λ usage. added usage (own_openai t) (owned t))

run_latched :
    (os : List Observation) (t : Telemetry)
    → from_openai t ≡ true
    → run os t ≡ run (openai_only os) t
unfolding run observe
run_latched [] t h = refl
run_latched (by_anthropic p ∷ os) t h = ap (run os) (ignored p t h) ∙ run_latched os t h
run_latched (by_openai p ∷ os) t h = run_latched os (observe_openai p t) (now_openai p t)

run_other :
    (os : List Observation) (t r : Telemetry)
    → from_openai t ≡ false
    → from_openai r ≡ false
    → any_openai os ≡ true
    → run os t ≡ run (openai_only os) r
unfolding run observe
run_other [] t r p q some_openai = ground arith
run_other (by_anthropic payload ∷ os) t r p q some_openai =
    run_other os (observe_anthropic payload t) r (still_other payload t p) q some_openai
run_other (by_openai payload ∷ os) t r p q some_openai =
    ap (run os) (fresh_start payload t r p q)
    ∙ run_latched os (observe_openai payload r) (now_openai payload r)

-- If any payload is observed as OpenAI's, the result is that of the OpenAI payloads alone: the
-- synthetic usage of the translated events, before or after, leaves no trace in it.
pub run-openai_only :
    (os : List Observation) → any_openai os ≡ true → run os none ≡ run (openai_only os) none
run-openai_only os some_openai = run_other os none none refl refl some_openai
