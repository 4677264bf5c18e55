-- ===== src/StreamPrelude.antt =====
-- The first frames of a stream, of stream_prelude.go: `primeFrameKind`, `metadataOnlySSE`,
-- `classifyPrelude`, `classifyUsefulPrelude`, `safePreludeStopReason`, `retryEmptyRigPrelude` and
-- `lastUserTurnHasToolResult`. The JSON decoder is a parameter.
pub mod Metadata
pub mod Agreement
use claude_gateway.Prelude.{
  ℕ, String, Bool, true, false, not, ◌&&◌, ◌||◌, Option, none, some, ltb, leb, ◌==◌, str_eq,
  if◌then◌else◌,
}
use claude_gateway.Json.{
  ℤ, pos, negsuc, Value, Members, Elements, Decoded, malformed, nil, decoded, no_members, member,
  no_elements, element, text, number, fraction, null, object, get, is_word, is_null, as_text,
  as_object, as_members, as_array, as_elements, openai_number, unwrap_openai_envelope,
}

abbrev pub is_empty : String → Bool
is_empty s = str_eq s ""

-- The text of a type that the frames of Anthropic have.
unfoldable pub anthropic_type : String → Bool
anthropic_type kind =
    str_eq kind "message_start"
    || str_eq kind "message_delta"
    || str_eq kind "message_stop"
    || str_eq kind "content_block_start"
    || str_eq kind "content_block_delta"
    || str_eq kind "content_block_stop"
    || str_eq kind "ping"
    || str_eq kind "error"

unfoldable pub frame_kind : Members → String
frame_kind p =
    if anthropic_type (as_text (get "type" p))
    then as_text (get "type" p)
    else if not (is_null (get "error" p))
    then "error"
    else elim (as_array (get "choices" p)) [ some choices ↦ "openai_choices" | none ↦ "unknown" ]

-- A key of a delta that brings nothing: the role, or an empty content or reasoning.
unfoldable pub is_blank_key : String → Value → Bool
is_blank_key key value =
    str_eq key "role" && is_word "assistant" value
    || (str_eq key "content" || str_eq key "reasoning_content" || str_eq key "reasoning")
      && (is_null value || is_word "" value)

unfoldable pub is_blank_delta : Members → Bool
is_blank_delta no_members = true
is_blank_delta (member key value rest) = is_blank_key key value && is_blank_delta rest

unfoldable pub is_blank_choice : Value → Bool
is_blank_choice (object choice) =
    is_null (get "finish_reason" choice)
    && elim (as_object (get "delta" choice)) [ none ↦ false | some delta ↦ is_blank_delta delta ]
is_blank_choice _ = false

unfoldable pub all_blank : Elements → Bool
all_blank no_elements = true
all_blank (element choice rest) = is_blank_choice choice && all_blank rest

unfoldable pub blank_choices : Members → Bool
blank_choices p = elim (as_array (get "choices" p)) [
  | none ↦ false
  | some choices ↦ elim choices [
    | no_elements ↦ false
    | element choice rest ↦ all_blank (element choice rest)
  ]
]

unfoldable pub empty_message : Members → Bool
empty_message p = elim (as_object (get "message" p)) [
  | none ↦ false
  | some message ↦ is_null (get "content" message) || elim (as_array (get "content" message)) [
    | none ↦ false
    | some content ↦ elim content [ no_elements ↦ true | element first rest ↦ false ]
  ]
]

unfoldable pub empty_block : Members → Bool
empty_block p = elim (as_object (get "content_block" p)) [
  | none ↦ false
  | some block ↦
      if is_word "text" (get "type" block)
      then is_word "" (get "text" block)
      else if is_word "thinking" (get "type" block)
      then is_word "" (get "thinking" block)
      else false
]

unfoldable pub empty_delta : Members → Bool
empty_delta p = elim (as_object (get "delta" p)) [
  | none ↦ false
  | some delta ↦
      if is_word "text_delta" (get "type" delta)
      then is_word "" (get "text" delta)
      else if is_word "thinking_delta" (get "type" delta)
      then is_word "" (get "thinking" delta)
      else false
]

-- A frame that is known metadata.
unfoldable pub metadata_only : Members → Bool
metadata_only p =
    if is_word "ping" (get "type" p)
    then true
    else if is_word "message_start" (get "type" p)
    then empty_message p
    else if is_word "content_block_start" (get "type" p)
    then empty_block p
    else if is_word "content_block_delta" (get "type" p)
    then empty_delta p
    else blank_choices p

unfoldable pub only_stop_keys : Members → Bool
only_stop_keys no_members = true
only_stop_keys (member key value rest) =
    (str_eq key "stop_reason" || str_eq key "stop_sequence") && only_stop_keys rest

-- What a classification answers: whether to go on without committing, or an error; that of an
-- empty stream has its stop reason and its output tokens.
pub data Answer : Type 0 where
  proceed : Bool → Answer
  refuse : (message : String) → Answer
  empty_stream : (stop_reason : String) → (output_tokens : ℤ) → Answer

-- The answer and the flag `sawStopReason`.
unfoldable pub classify_payload : Members → Bool → Answer × Bool
classify_payload p saw_stop =
    if is_word "message_stop" (get "type" p) && not saw_stop
    then (refuse "initial SSE message_stop without stop_reason", saw_stop)
    else if is_word "message_delta" (get "type" p)
    then elim (as_object (get "delta" p)) [
      | none ↦ (proceed false, saw_stop)
      | some delta ↦
          if only_stop_keys delta
          then (proceed true, saw_stop || not (is_empty (as_text (get "stop_reason" delta))))
          else (proceed false, saw_stop)
    ]
    else (proceed (metadata_only p), saw_stop)

unfoldable pub safe_stop_reason : Value → String
safe_stop_reason value =
    let reason = as_text value in
    if str_eq reason "end_turn"
      || str_eq reason "max_tokens"
      || str_eq reason "stop_sequence"
      || str_eq reason "tool_use"
      || str_eq reason "pause_turn"
      || str_eq reason "refusal"
      || str_eq reason "stop"
      || str_eq reason "length"
      || str_eq reason "tool_calls"
    then reason
    else "unknown"

-- A count that is out of range is 0; a fraction is cut.
abbrev pub bounded_tokens : Value → ℤ
bounded_tokens (number (pos n)) = if ltb 1_000_000_000 n then pos 0 else pos n
bounded_tokens (fraction (pos n)) = if leb 1_000_000_000 n then pos 0 else pos n
bounded_tokens _ = pos 0

unfoldable pub useful_end : Value → Value → Answer
useful_end reason tokens =
    if is_null reason
    then proceed true
    else empty_stream (safe_stop_reason reason) (bounded_tokens tokens)

unfoldable pub useful_block : Members → Option Answer
useful_block p =
    let block = as_members (get "content_block" p) in
    if is_word "tool_use" (get "type" block)
    then some (proceed false)
    else if is_word "thinking" (get "type" block)
    then some (proceed true)
    else if is_word "text" (get "type" block)
    then some (proceed (is_empty (as_text (get "text" block))))
    else none

unfoldable pub useful_delta : Members → Option Answer
useful_delta p =
    let delta = as_members (get "delta" p) in
    if is_word "thinking_delta" (get "type" delta) || is_word "signature_delta" (get "type" delta)
    then some (proceed true)
    else if is_word "text_delta" (get "type" delta)
    then some (proceed (is_empty (as_text (get "text" delta))))
    else if is_word "input_json_delta" (get "type" delta)
    then some (proceed false)
    else none

unfoldable pub useful_choices : Elements → Answer
useful_choices no_elements = proceed true
useful_choices (element choice rest) =
    let c = as_members choice in
    let delta = as_members (get "delta" c) in
    if not (is_empty (as_text (get "content" delta)))
    then proceed false
    else elim (as_elements (get "tool_calls" delta)) [
      | element call more ↦ proceed false
      | no_elements ↦
          if not (is_null (get "finish_reason" c))
          then empty_stream "unknown" (pos 0)
          else useful_choices rest
    ]

-- The frames that no type decides.
unfoldable pub useful_openai : Members → Answer
useful_openai p = elim (as_array (get "choices" p)) [
  | some choices ↦ useful_choices choices
  | none ↦ refuse "unsupported stream prelude"
]

abbrev pub or_openai : Option Answer → Members → Answer
or_openai (some answer) p = answer
or_openai none p = useful_openai p

unfoldable pub useful_payload : Members → Answer
useful_payload p =
    if is_word "message_stop" (get "type" p)
    then empty_stream "unknown" (pos 0)
    else if is_word "message_delta" (get "type" p)
    then useful_end (get "stop_reason" (as_members (get "delta" p)))
        (get "output_tokens" (as_members (get "usage" p)))
    else if is_word "ping" (get "type" p)
        || is_word "message_start" (get "type" p)
        || is_word "content_block_stop" (get "type" p)
    then proceed true
    else if is_word "content_block_start" (get "type" p)
    then or_openai (useful_block p) p
    else if is_word "content_block_delta" (get "type" p)
    then or_openai (useful_delta p) p
    else useful_openai p

unfoldable pub retry_empty_prelude : Bool → Answer → ℕ → Bool
retry_empty_prelude rig (empty_stream reason tokens) retries =
    rig && retries == 0 && str_eq reason "end_turn"
retry_empty_prelude rig _ retries = false

unfoldable pub last_of : Elements → Value
last_of no_elements = null
last_of (element v rest) = elim rest [ no_elements ↦ v | element w more ↦ last_of rest ]

unfoldable pub any_tool_result : Elements → Bool
any_tool_result no_elements = false
any_tool_result (element block rest) =
    is_word "tool_result" (get "type" (as_members block)) || any_tool_result rest

unfoldable pub last_turn_has_tool_result : Members → Bool
last_turn_has_tool_result payload =
    let last = as_members (last_of (as_elements (get "messages" payload))) in
    is_word "user" (get "role" last) && any_tool_result (as_elements (get "content" last))

module _ (decode : String → Decoded) where
  unfoldable pub prime_frame_kind : String → String
  prime_frame_kind content = elim (decode content) [
    | malformed ↦ "malformed"
    | nil ↦ frame_kind (unwrap_openai_envelope no_members)
    | decoded p ↦ frame_kind (unwrap_openai_envelope p)
  ]

  unfoldable pub classify_prelude : String → Bool → Answer × Bool
  classify_prelude content saw_stop = elim (decode content) [
    | malformed ↦ (proceed false, saw_stop)
    | nil ↦ classify_payload (unwrap_openai_envelope no_members) saw_stop
    | decoded p ↦ classify_payload (unwrap_openai_envelope p) saw_stop
  ]

  unfoldable pub classify_useful : String → Answer
  classify_useful content =
      if str_eq content "[DONE]" then empty_stream "unknown" (pos 0) else elim (decode content) [
        | malformed ↦ refuse "malformed stream prelude"
        | nil ↦ useful_payload (unwrap_openai_envelope no_members)
        | decoded p ↦ useful_payload (unwrap_openai_envelope p)
      ]
