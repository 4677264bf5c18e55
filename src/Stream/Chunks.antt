-- ===== src/Stream/Chunks.antt =====
-- One chunk of the upstream's stream and the end of a translation: `processOpenAIChunk`,
-- `processOpenAIToolCallChunk`, `finishOpenAIMessageChecked` and `mapOpenAIFinishReason` of
-- anthropic-proxy.go.
use Prim.Native.String.{◌++◌ as join, len}
use claude_gateway.Prelude.{
  ℕ, ◌+◌, ◌*◌, suc, String, Bool, true, false, not, ◌&&◌, ◌||◌, Option, none, some, List, [], ◌∷◌,
  ◌++◌, ltb, leb, length, str_eq, starts_with, if◌then◌else◌,
}
use claude_gateway.Json.{
  ℤ, pos, negsuc, Value, Elements, Members, no_elements, element, Decoded, decoded, get, as_text,
  as_elements, as_object, as_members, openai_number,
}
use claude_gateway.Stream.{
  message_start, text_start, tool_start, text_delta, json_delta, block_stop, message_delta,
  message_stop, error_event, Stream, Outcome, ok, failed, and_then, write, is_empty, close_text,
}
use claude_gateway.Stream.Blocks.{Tool, Tools, new_tool, find, store}

abbrev pub max_tool_calls : ℕ
max_tool_calls = 128

abbrev pub max_tool_argument_bytes : ℕ
max_tool_argument_bytes = 8 * 1_048_576

unfoldable pub map_finish_reason : String → String
map_finish_reason reason =
    if str_eq reason "stop"
    then "end_turn"
    else if str_eq reason "length"
    then "max_tokens"
    else if str_eq reason "tool_calls" || str_eq reason "function_call"
    then "tool_use"
    else if str_eq reason "content_filter"
    then "refusal"
    else "end_turn"

abbrev pub or_kept : Option ℤ → ℤ → ℤ
or_kept none old = old
or_kept (some z) old = z

-- The cached tokens: from the details where there are any, else from the cache-hit count.
unfoldable pub cached_tokens : Members → ℤ → ℤ
cached_tokens usage old = elim (as_object (get "prompt_tokens_details" usage)) [
  | some details ↦ or_kept (openai_number (get "cached_tokens" details)) old
  | none ↦ or_kept (openai_number (get "prompt_cache_hit_tokens" usage)) old
]

unfoldable pub observe_usage : Members → Stream → Stream
observe_usage chunk s = elim (as_object (get "usage" chunk)) [
  | none ↦ s
  | some usage ↦ record s {
    input_tokens = or_kept (openai_number (get "prompt_tokens" usage)) s.input_tokens;
    output_tokens = or_kept (openai_number (get "completion_tokens" usage)) s.output_tokens;
    cache_read_tokens = cached_tokens usage s.cache_read_tokens;
  }
]

unfoldable pub message_id : Members → String
message_id chunk =
    let id = as_text (get "id" chunk) in
    let named = if is_empty id then "adapter" else id in
    if starts_with named "msg_" then named else join "msg_" named

unfoldable pub start_message : Members → Stream → Stream
start_message chunk s =
    if s.started
    then s
    else write (message_start (message_id chunk) s.alias s.input_tokens)
        (record s { started = true })

unfoldable pub open_text : Stream → Stream
open_text s =
    if s.text_open
    then s
    else write (text_start s.next_block)
        (record s { text_open = true; text_index = s.next_block; next_block = suc s.next_block })

unfoldable pub text_content : String → Stream → Stream
text_content content s =
    if is_empty content
    then s
    else let opened = open_text s in write (text_delta opened.text_index content) opened

abbrev pub or_old : String → String → String
or_old new old = if is_empty new then old else new

abbrev pub function_of : Members → Members
function_of call = as_members (get "function" call)

-- The id, the name and the byte count that a chunk brings to its block.
unfoldable pub name_tool : Members → Tool → Tool
name_tool call b = record b {
  id = or_old (as_text (get "id" call)) b.id;
  name = or_old (as_text (get "name" (function_of call))) b.name;
  argument_bytes = b.argument_bytes + len (as_text (get "arguments" (function_of call)));
}

abbrev pub snoc_text : List String → String → List String
snoc_text xs arguments = if is_empty arguments then xs else xs ++ arguments ∷ []

unfoldable pub buffer : String → Tool → Tool
buffer arguments b = record b {
  pending_args = snoc_text b.pending_args arguments;
  argument_fragments = snoc_text b.argument_fragments arguments;
}

unfoldable pub write_deltas : ℕ → List String → Stream → Stream
write_deltas index [] s = s
write_deltas index (x ∷ xs) s = write_deltas index xs (write (json_delta index x) s)

-- Opens the block of a tool whose id and name are known, and writes what was buffered for it.
unfoldable pub start_tool : ℤ → Tool → Stream → Stream
start_tool index b s =
    let closed = close_text s in
    let begun = record b { block_index = closed.next_block; started = true } in
    let opened = write (tool_start begun.block_index b.id b.name) (record closed {
      next_block = suc closed.next_block;
      tools = store index begun closed.tools;
      tool_order = closed.tool_order ++ index ∷ [];
    }) in
    let sent = write_deltas begun.block_index b.pending_args opened in
    record sent { tools = store index (record begun { pending_args = [] }) sent.tools }

unfoldable pub fill_tool : ℤ → String → Tool → Stream → Outcome
fill_tool index arguments b s =
    if b.started
    then if is_empty arguments
      then ok s
      else ok (
          write (json_delta b.block_index arguments) (record s {
            tools =
                store index
                  (record b { argument_fragments = b.argument_fragments ++ arguments ∷ [] })
                  s.tools;
          }))
    else let filled = buffer arguments b in
      let kept = record s { tools = store index filled s.tools } in
      if is_empty b.id || is_empty b.name then ok kept else ok (start_tool index filled kept)

unfoldable pub tool_index : Members → ℤ
tool_index call = or_kept (openai_number (get "index" call)) (pos 0)

-- A chunk for the block `b`, which is the one stored under `index` or a new one.
unfoldable pub add_to_tool : Members → Tool → Stream → Outcome
add_to_tool call b s =
    let arguments = as_text (get "arguments" (function_of call)) in
    let named = name_tool call b in
    let counted = record s {
      tools = store (tool_index call) named s.tools;
      argument_bytes = s.argument_bytes + len arguments;
    } in
    if ltb max_tool_argument_bytes counted.argument_bytes
    then failed "OpenAI adapter: tool arguments exceed limit" counted
    else fill_tool (tool_index call) arguments named counted

unfoldable pub process_call : Members → Stream → Outcome
process_call call s = elim (find (tool_index call) s.tools) [
  | some b ↦ add_to_tool call b s
  | none ↦
      if leb max_tool_calls (length s.tools)
      then failed "OpenAI adapter: too many tool calls" s
      else add_to_tool call new_tool s
]

unfoldable pub process_tool_call : Value → Stream → Outcome
process_tool_call raw s = elim (as_object raw) [ none ↦ ok s | some call ↦ process_call call s ]

unfoldable pub process_tool_calls : Elements → Stream → Outcome
process_tool_calls no_elements s = ok s
process_tool_calls (element x xs) s = and_then (process_tool_call x s) (process_tool_calls xs)

unfoldable pub note_finish : String → Stream → Stream
note_finish reason s =
    if not (is_empty reason) && not s.terminated
    then record s { pending_stop_reason = map_finish_reason reason }
    else s

unfoldable pub process_choice : Value → Stream → Outcome
process_choice raw s = elim (as_object raw) [
  | none ↦ ok s
  | some choice ↦
      let delta = as_members (get "delta" choice) in
      and_then
        (process_tool_calls (as_elements (get "tool_calls" delta))
          (text_content (as_text (get "content" delta)) s))
        (λ t. ok (note_finish (as_text (get "finish_reason" choice)) t))
]

unfoldable pub process_choices : Elements → Stream → Outcome
process_choices no_elements s = ok s
process_choices (element x xs) s = and_then (process_choice x s) (process_choices xs)

unfoldable pub process_chunk : Members → Stream → Outcome
process_chunk chunk s =
    process_choices (as_elements (get "choices" chunk))
      (start_message chunk (observe_usage chunk s))

-- The arguments of a tool are empty or the JSON of an object.
unfoldable pub bad_arguments : (String → Decoded) → (List String → String) → Tool → Bool
bad_arguments decode trimmed b =
    let arguments = trimmed b.argument_fragments in
    if is_empty arguments then false else elim (decode arguments) [ decoded fs ↦ false | _ ↦ true ]

unfoldable pub incomplete : Tool → Bool
incomplete b =
    not b.started
    && (not (is_empty b.id) || not (is_empty b.name) || not (leb (length b.argument_fragments) 0))

-- The first fault of the tools, in the order in which the loop meets them.
unfoldable pub fault : (String → Decoded) → (List String → String) → Tools → Option String
fault decode trimmed [] = none
fault decode trimmed ((k, b) ∷ m) =
    if bad_arguments decode trimmed b
    then some "OpenAI adapter: malformed tool call arguments"
    else if incomplete b
    then some "OpenAI adapter: incomplete tool call"
    else fault decode trimmed m

unfoldable pub close_tool : ℤ → Stream → Stream
close_tool index s = elim (find index s.tools) [
  | none ↦ s
  | some b ↦
      if b.started && not b.closed
      then write (block_stop b.block_index)
          (record s { tools = store index (record b { closed = true }) s.tools })
      else s
]

unfoldable pub close_tools : List ℤ → Stream → Stream
close_tools [] s = s
close_tools (k ∷ ks) s = close_tools ks (close_tool k s)

-- The usage names the cached tokens only where there are any.
abbrev pub when_positive : ℤ → Option ℤ
when_positive (pos n) = if ltb 0 n then some (pos n) else none
when_positive (negsuc n) = none

unfoldable pub finish_message :
    (String → Decoded) → (List String → String) → String → Stream → Stream
finish_message decode trimmed stop_reason s =
    if s.terminated then s else elim (fault decode trimmed s.tools) [
      | some message ↦
          write (error_event message) (record s { protocol_error = true; terminated = true })
      | none ↦
          let closed = close_tools s.tool_order (close_text (record s { terminated = true })) in
          write message_stop (
            write
              (message_delta stop_reason closed.input_tokens closed.output_tokens
                (when_positive closed.cache_read_tokens))
              closed)
    ]
