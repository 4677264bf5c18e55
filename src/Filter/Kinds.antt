-- ===== src/Filter/Kinds.antt =====
-- The names of the events, and the keys that the filter's changes leave alone: what was validated
-- is what is written.

use claude_gateway.Prelude.{
  ℕ, String, Bool, true, false, Option, none, some, ◌≡◌, ◌≢◌, ◌⊎◌, refl, ap, subst, ◌∙◌, str_eq,
  eq_iff, if◌then◌else◌, if_both, Option-cases, Bool-cases, inl, inr, arith,
}
use claude_gateway.Json.{
  Members, object, get, put, has, get-put_other, as_text, as_members, as_object,
}
use claude_gateway.Stream.{is_empty}
use claude_gateway.Filter.{
  Kind, message_start, content_block_start, content_block_delta, content_block_stop, message_delta,
  message_stop, ping, error, kind_of, FilterState, Output, event,
}
use claude_gateway.Filter.Payload.{
  add_usage_hint, set_response_alias, rename_model, with_usage_hint,
}
use claude_gateway.Filter.Frame.{no_event, valid, check_payload, check_order, Filtered, named}

-- The keys that the hint and the alias leave alone.
hint_keeps :
    (k : String) (hint : ℕ) (payload : Members)
    → str_eq "message" k ≡ false
    → get k (add_usage_hint hint payload) ≡ get k payload
unfolding add_usage_hint
hint_keeps k hint payload other = elim (Option-cases (as_object (get "message" payload))) [
  | inl missing ↦ ground (arith, missing)
  | inr (message, found) ↦
      let usage = object (with_usage_hint hint (as_members (get "usage" message))) in
      let hinted = object (put "usage" usage message) in
      ground (arith, found, get-put_other k "message" hinted payload other)
]

rename_keeps :
    (k alias : String) (m : Members)
    → str_eq "model" k ≡ false
    → get k (rename_model alias m) ≡ get k m
rename_keeps k alias m other =
    if_both (λ n. get k n ≡ get k m) (has "model" m) _ m (λ h. get-put_other k "model" _ m other)
      (λ h. refl)

alias_keeps :
    (k alias : String) (payload : Members)
    → str_eq "message" k ≡ false
    → str_eq "model" k ≡ false
    → get k (set_response_alias alias payload) ≡ get k payload
unfolding set_response_alias
alias_keeps k alias payload other another =
    let renamed = rename_model alias payload in
    let same = rename_keeps k alias payload another in
    elim (Option-cases (as_object (get "message" renamed))) [
      | inl missing ↦ ground (arith, missing, same)
      | inr (message, found) ↦
          let named = object (rename_model alias message) in
          ground (arith, found, same, get-put_other k "message" named renamed other)
    ]

pub changes_keep :
    (k alias : String) (hint : ℕ) (payload : Members)
    → str_eq "message" k ≡ false
    → str_eq "model" k ≡ false
    → get k (set_response_alias alias (add_usage_hint hint payload)) ≡ get k payload
changes_keep k alias hint payload other another =
    alias_keeps k alias (add_usage_hint hint payload) other another
    ∙ hint_keeps k hint payload other

abbrev pub text_of : Kind → String
text_of message_start = "message_start"
text_of content_block_start = "content_block_start"
text_of content_block_delta = "content_block_delta"
text_of content_block_stop = "content_block_stop"
text_of message_delta = "message_delta"
text_of message_stop = "message_stop"
text_of ping = "ping"
text_of error = "error"

pub kind_of-text_of : (k : Kind) → kind_of (text_of k) ≡ some k
unfolding kind_of
kind_of-text_of message_start = refl
kind_of-text_of content_block_start = refl
kind_of-text_of content_block_delta = refl
kind_of-text_of content_block_stop = refl
kind_of-text_of message_delta = refl
kind_of-text_of message_stop = refl
kind_of-text_of ping = refl
kind_of-text_of error = refl

pub given : (k : Kind) → is_empty (text_of k) ≡ false
given message_start = refl
given content_block_start = refl
given content_block_delta = refl
given content_block_stop = refl
given message_delta = refl
given message_stop = refl
given ping = refl
given error = refl

pub text_of-kind_of : (t : String) (k : Kind) → kind_of t ≡ some k → t ≡ text_of k
unfolding kind_of
text_of-kind_of t k e = ground (
  arith,
  eq_iff t "message_start",
  eq_iff t "content_block_start",
  eq_iff t "content_block_delta",
  eq_iff t "content_block_stop",
  eq_iff t "message_delta",
  eq_iff t "message_stop",
  eq_iff t "ping",
  eq_iff t "error",
)

pub check_order_same :
    (j k : Kind) (started ended : Bool) → check_order j started ended ≡ valid k → j ≡ k
unfolding check_order
check_order_same message_start k started ended e = ground arith
check_order_same content_block_start k started ended e = ground arith
check_order_same content_block_delta k started ended e = ground arith
check_order_same content_block_stop k started ended e = ground arith
check_order_same message_delta k started ended e = ground arith
check_order_same message_stop k started ended e = ground arith
check_order_same ping k started ended e = ground arith
check_order_same error k started ended e = ground arith

abbrev pub is_block : Kind → Bool
is_block content_block_start = true
is_block content_block_delta = true
is_block content_block_stop = true
is_block _ = false

abbrev pub reason_of : Members → String
reason_of payload = as_text (get "stop_reason" (as_members (get "delta" payload)))

-- What is written of an event of the kind `k`: nothing, if it is about a block and dropped, or the
-- event with its name and its stop reason.
abbrev pub Kept : Kind → Option Output → String → Type 0
Kept k out stop =
    ((out ≡ none) × (is_block k ≡ true))
    ⊎ ((payload : Members) × (out ≡ some (event (text_of k) payload))
        × (k ≡ message_delta → stop ≡ reason_of payload))

pub kept_lem :
    (k : Kind) (stop : String) (r : Members × FilterState × Bool)
    → (is_block k ≡ false → r.2 ≡ false)
    → (k ≡ message_delta → stop ≡ reason_of r.0)
    → Kept k (if r.2 then none else some (event (text_of k) r.0)) stop
kept_lem k stop (payload, st, false) quiet same = inr (payload, refl, same)
kept_lem k stop (payload, st, true) quiet same = elim (Bool-cases (is_block k)) [
  | inl block ↦ inl (refl, block)
  | inr other ↦ cc (quiet other)
]

-- An event of the kind `k` as the filter makes it.
pub record IsKept (k : Kind) (f : Filtered) : Type 0 where
  pub name : f.name ≡ text_of k
  pub kept : Kept k f.output f.stop_reason

check_payload_order :
    (name : String) (payload : Members) (started ended : Bool) (j k : Kind)
    → kind_of (as_text (get "type" payload)) ≡ some j
    → check_payload name payload started ended ≡ valid k
    → (check_order j started ended ≡ valid k) × (named name payload ≡ as_text (get "type" payload))
unfolding check_payload
check_payload_order name payload started ended j k known e =
    ground (arith, known, e, eq_iff name (as_text (get "type" payload)))

pub check_payload_facts :
    (name : String) (payload : Members) (started ended : Bool) (k : Kind)
    → check_payload name payload started ended ≡ valid k
    → (as_text (get "type" payload) ≡ text_of k)
      × (named name payload ≡ text_of k)
      × (check_order k started ended ≡ valid k)
unfolding check_payload
check_payload_facts name payload started ended k e =
    let kind = as_text (get "type" payload) in
    elim (Option-cases (kind_of kind)) [
      | inl unknown ↦ ground (arith, unknown, e)
      | inr (j, known) ↦
          let (order, same_name) = check_payload_order name payload started ended j k known e in
          let same_kind = check_order_same j k started ended order in
          let called = text_of-kind_of kind j known ∙ ap text_of same_kind in
          (
            called,
            same_name ∙ called,
            subst (λ i. check_order i started ended ≡ valid k) same_kind order,
          )
    ]

check_order_event : (k : Kind) (started ended : Bool) → check_order k started ended ≢ no_event
unfolding check_order
check_order_event ping started ended = ground arith
check_order_event message_start started ended = ground arith
check_order_event k started ended = ground arith

pub check_payload_event :
    (name : String) (payload : Members) (started ended : Bool)
    → check_payload name payload started ended ≢ no_event
unfolding check_payload
check_payload_event name payload started ended =
    let kind = as_text (get "type" payload) in
    elim (Option-cases (kind_of kind)) [
      | inl unknown ↦ ground (arith, unknown)
      | inr (k, known) ↦ ground (arith, known, check_order_event k started ended)
    ]
