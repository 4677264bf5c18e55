-- ===== src/Tests/Streams.antt =====
-- Runs of the stream translation, and the witnesses of the theorems about it.
use claude_gateway.Prelude.{
  arith, ◌++◌, String, List, [], ◌∷◌, ◌≡◌, refl, str_eq, if◌then◌else◌, none,
}
use Prim.Native.String.{◌++◌ as join}
use claude_gateway.Json.{
  as_elements, get, has, unwrap_openai_envelope, pos, Value, Elements, Members, number, text, array,
  object, no_elements, element, no_members, member, Decoded, malformed, decoded,
}
use claude_gateway.Stream.{
  Outcome, new_stream, write, close_text, message_start, text_start, tool_start, text_delta,
  json_delta, block_stop, message_delta, message_stop, error_event, state_of,
}
use claude_gateway.Stream.Chunks.{
  map_finish_reason, cached_tokens, observe_usage, message_id, start_message, open_text,
  text_content, name_tool, buffer, write_deltas, start_tool, fill_tool, tool_index, add_to_tool,
  process_call, process_tool_call, process_tool_calls, note_finish, process_choice, process_choices,
  process_chunk, bad_arguments, incomplete, fault, close_tool, close_tools, finish_message,
}
use claude_gateway.Stream.Lines.{
  fail, error_message, process_frame, stop_reason, decode_frame, flush, conclude, read_lines, Line,
  blank, payload, other, eof, interrupted, translate,
}
use claude_gateway.Stream.Texts.{texts, contents, process_chunk-Adds}
use claude_gateway.Stream.Limits.{bytes, held_bytes, IsBounded, process_chunk-IsBounded}
use claude_gateway.Stream.Trace.{IsWellFormed, translate-IsWellFormed}

-- The chunk with one choice that has the fields given, and the one with a single tool call.
abbrev one : Value → Elements
one v = element v no_elements

abbrev chunk : Members → Members
chunk choice = member "choices" (array (one (object choice))) no_members

abbrev says : String → Members
says content =
    chunk (member "delta" (object (member "content" (text content) no_members)) no_members)

abbrev calls : Members → Members
calls call = chunk (
    member "delta" (object (member "tool_calls" (array (one (object call))) no_members)) no_members)

abbrev names_tool : Members
names_tool = calls (
    member "index" (number (pos 0)) (
      member "id" (text "call_1")
        (member "function" (object (member "name" (text "read") no_members)) no_members)))

abbrev sends_arguments : Members
sends_arguments = calls (
    member "index" (number (pos 0))
      (member "function" (object (member "arguments" (text "{}") no_members)) no_members))

-- A decoder of four frames.
abbrev sample_decode : String → Decoded
sample_decode frame =
    if str_eq frame "hello"
    then decoded (says "Hello")
    else if str_eq frame "tool"
    then decoded names_tool
    else if str_eq frame "arguments"
    then decoded sends_arguments
    else if str_eq frame "{}"
    then decoded no_members
    else malformed

abbrev concat : List String → String
concat [] = ""
concat (x ∷ xs) = join x (concat xs)

abbrev upstream : List Line
upstream =
    payload "hello"
    ∷ blank
    ∷ payload "tool"
    ∷ blank
    ∷ other
    ∷ payload "arguments"
    ∷ blank
    ∷ payload "[DONE]"
    ∷ blank
    ∷ []

upstream_translated :
    (state_of (translate sample_decode concat "opus" eof upstream)).written
    ≡ message_start "msg_adapter" "opus" (pos 0)
      ∷ text_start 0
      ∷ text_delta 0 "Hello"
      ∷ block_stop 0
      ∷ tool_start 1 "call_1" "read"
      ∷ json_delta 1 "{}"
      ∷ block_stop 1
      ∷ message_delta "tool_use" (pos 0) (pos 0) none
      ∷ message_stop
      ∷ []
unfolding get has unwrap_openai_envelope write close_text map_finish_reason cached_tokens
    observe_usage message_id start_message open_text text_content name_tool buffer write_deltas
    start_tool fill_tool tool_index add_to_tool process_call process_tool_call process_tool_calls
    note_finish process_choice process_choices process_chunk bad_arguments incomplete fault
    close_tool close_tools finish_message fail error_message process_frame stop_reason decode_frame
    flush conclude read_lines translate
upstream_translated = refl

broken_off_translated :
    (state_of
      (translate sample_decode concat "opus" (interrupted "reset") (payload "hello" ∷ []))).written
    ≡ message_start "msg_adapter" "opus" (pos 0)
      ∷ text_start 0
      ∷ text_delta 0 "Hello"
      ∷ error_event "upstream stream interrupted: reset"
      ∷ []
unfolding get has unwrap_openai_envelope write close_text map_finish_reason cached_tokens
    observe_usage message_id start_message open_text text_content name_tool buffer write_deltas
    start_tool fill_tool tool_index add_to_tool process_call process_tool_call process_tool_calls
    note_finish process_choice process_choices process_chunk bad_arguments incomplete fault
    close_tool close_tools finish_message fail error_message process_frame stop_reason decode_frame
    flush conclude read_lines translate
broken_off_translated = refl

translate-IsWellFormed_example :
    IsWellFormed sample_decode concat (translate sample_decode concat "opus" eof upstream)
translate-IsWellFormed_example = translate-IsWellFormed sample_decode concat "opus" eof upstream

abbrev started_stream : Outcome
started_stream = process_chunk (says "Hello") (new_stream "opus")

process_chunk-Adds_example :
    texts (state_of started_stream).written
    ≡ texts [] ++ contents (as_elements (get "choices" (says "Hello")))
unfolding get has unwrap_openai_envelope write close_text map_finish_reason cached_tokens
    observe_usage message_id start_message open_text text_content name_tool buffer write_deltas
    start_tool fill_tool tool_index add_to_tool process_call process_tool_call process_tool_calls
    note_finish process_choice process_choices process_chunk bad_arguments incomplete fault
    close_tool close_tools finish_message fail error_message process_frame stop_reason decode_frame
    flush conclude read_lines translate
process_chunk-Adds_example =
    process_chunk-Adds (says "Hello") (new_stream "opus") (state_of started_stream) refl

abbrev named_stream : Outcome
named_stream = process_chunk names_tool (state_of started_stream)

process_chunk-IsBounded_example : IsBounded (state_of named_stream)
unfolding bytes held_bytes get has unwrap_openai_envelope write close_text map_finish_reason
    cached_tokens observe_usage message_id start_message open_text text_content name_tool buffer
    write_deltas start_tool fill_tool tool_index add_to_tool process_call process_tool_call
    process_tool_calls note_finish process_choice process_choices process_chunk bad_arguments
    incomplete fault close_tool close_tools finish_message fail error_message process_frame
    stop_reason decode_frame flush conclude read_lines translate
process_chunk-IsBounded_example =
    process_chunk-IsBounded names_tool (state_of started_stream) (state_of named_stream)
      (omega arith, omega arith, refl) refl
