-- ===== src/Tests/Filters.antt =====
-- Runs of the filter of event streams and of the stream prelude, and the theorems about them
-- applied.
use claude_gateway.Prelude.{
  String, Bool, true, false, Option, none, some, List, [], ◌∷◌, ◌≡◌, refl, str_eq, if◌then◌else◌,
}
use Prim.Native.String.{◌++◌ as join}
use claude_gateway.Json.{
  get, has, put, pos, Members, number, text, array, object, no_elements, element, no_members,
  member, Decoded, malformed, decoded,
}
use claude_gateway.ToolIds.{
  all_allowed, after_prefix, has_prefix, valid_tool_use_id, cleaned, trim_start, trim_end, take,
  base_of, sanitize_tool_use_id, normalize_id, normalize_reference, normalize_tool_id_block,
}
use claude_gateway.Filter.{Line, event_data, kind_of, new_filter, event, failure}
use claude_gateway.ToolIds.Valid.{IsAccepted, IsDigest, valid-sanitize_tool_use_id}
use claude_gateway.Filter.Payload.{
  add_usage_hint, set_response_alias, filter_content_blocks, filter_message_content, name_block,
  start_block, continue_block, drop_by_kind, should_drop,
}
use claude_gateway.Filter.Frame.{
  name_of, data_of, any_unsupported, check_order, check_payload, check_data, validate,
  filter_payload, filter_data, filter_event,
}
use claude_gateway.Filter.Loop.{
  Progress, Outcome, ok, failed, flags, replaced, note, close_open, conclude, trailing_marker, pass,
  judge, flush, end_frame, last_frame, read_lines, filter_sse, Input,
}
use claude_gateway.Filter.Monitor.{Leaves, IsClosed}
use claude_gateway.Filter.Order.{filter_sse-IsClosed}
use claude_gateway.Filter.Numbers.{Between, filter_blocks, all_numbers, start_numbers}
use claude_gateway.Filter.Allotted.{IsRenumbered, AllApart, blocks_of}
use claude_gateway.Filter.Renumbered.{filter_blocks_numbers}
use claude_gateway.Stream.{new_stream}
use claude_gateway.Stream.{ok as translated}
use claude_gateway.Stream.Lines.{eof}
use claude_gateway.Stream.Chunks.{process_chunk, start_message, observe_usage}
use claude_gateway.StreamPrelude.{
  useful_payload, proceed, is_blank_key, is_blank_delta, is_blank_choice, all_blank, blank_choices,
  metadata_only,
}
use claude_gateway.StreamPrelude.Agreement.{metadata_only-useful_payload}
use claude_gateway.StreamPrelude.Metadata.{metadata_only-process_chunk}

abbrev typed : String → Members → Members
typed kind rest = member "type" (text kind) rest

abbrev block_event : String → String → Members
block_event kind block = typed kind (
    member "index" (number (pos 0))
      (member "content_block" (object (typed block no_members)) no_members))

abbrev stop_event : Members
stop_event =
    typed "message_delta"
      (member "delta" (object (member "stop_reason" (text "end_turn") no_members)) no_members)

-- A decoder of the frames used below.
abbrev sample_decode : String → Decoded
sample_decode frame =
    if str_eq frame "start"
    then decoded (typed "message_start" no_members)
    else if str_eq frame "block"
    then decoded (block_event "content_block_start" "text")
    else if str_eq frame "reason"
    then decoded stop_event
    else if str_eq frame "stop"
    then decoded (typed "message_stop" no_members)
    else malformed

abbrev sample_digest : String → String
sample_digest id = "0123456789ab"

abbrev is_thinking : String → Bool
is_thinking kind = str_eq kind "thinking"

abbrev same_text : String → String
same_text frame = frame

abbrev frame_line : String → Option Line
frame_line content = some (record { raw = join "data: " content; holds = event_data content })

abbrev upstream : Input
upstream =
    frame_line "start"
    ∷ none
    ∷ frame_line "block"
    ∷ none
    ∷ frame_line "reason"
    ∷ none
    ∷ frame_line "stop"
    ∷ none
    ∷ []

abbrev unreasoned : Input
unreasoned = frame_line "start" ∷ none ∷ frame_line "stop" ∷ none ∷ []

abbrev run : Input → Outcome
run = filter_sse sample_decode sample_digest is_thinking 0 "" same_text eof

abbrev progress_of : Outcome → Progress
progress_of (ok s) = s
progress_of (failed message s) = s

upstream_filtered :
    (progress_of (run upstream)).written
    ≡ event "message_start" (typed "message_start" no_members)
      ∷ event "content_block_start" (block_event "content_block_start" "text")
      ∷ event "message_delta" stop_event
      ∷ event "message_stop" (typed "message_stop" no_members)
      ∷ []
unfolding get has put kind_of add_usage_hint set_response_alias filter_content_blocks
    filter_message_content name_block start_block continue_block drop_by_kind should_drop name_of
    data_of any_unsupported check_order check_payload check_data validate filter_payload filter_data
    filter_event flags replaced note close_open conclude trailing_marker pass judge flush end_frame
    last_frame read_lines filter_sse normalize_id normalize_reference normalize_tool_id_block
upstream_filtered = refl

unreasoned_filtered :
    (progress_of (run unreasoned)).written
    ≡ event "message_start" (typed "message_start" no_members)
      ∷ failure "upstream stream ended without stop_reason (truncated response)"
      ∷ []
unfolding get has put kind_of add_usage_hint set_response_alias filter_content_blocks
    filter_message_content name_block start_block continue_block drop_by_kind should_drop name_of
    data_of any_unsupported check_order check_payload check_data validate filter_payload filter_data
    filter_event flags replaced note close_open conclude trailing_marker pass judge flush end_frame
    last_frame read_lines filter_sse
unreasoned_filtered = refl

filter_sse-IsClosed_example : Leaves IsClosed (run unreasoned)
filter_sse-IsClosed_example =
    filter_sse-IsClosed sample_decode sample_digest is_thinking 0 "" same_text eof unreasoned

-- A dropped block at 0, and a block at 1 with a delta.
abbrev blocks : List Members
blocks =
    block_event "content_block_start" "thinking"
    ∷ at_one "content_block_start"
    ∷ at_one "content_block_delta"
    ∷ []
  where
    at_one : String → Members
    at_one kind = member "type" (text kind) (member "index" (number (pos 1)) no_members)

blocks_numbered : all_numbers (filter_blocks sample_digest is_thinking blocks new_filter).0 ≡ 0 ∷ []
unfolding get put name_block start_block continue_block drop_by_kind should_drop normalize_id
    normalize_reference normalize_tool_id_block filter_blocks start_numbers
blocks_numbered = refl

filter_blocks_numbers_example :
    let (written, st) = filter_blocks sample_digest is_thinking blocks new_filter in
    Between 0 st.next (all_numbers written)
    × IsRenumbered [] 0 (blocks_of written)
    × AllApart (blocks_of written)
filter_blocks_numbers_example = filter_blocks_numbers sample_digest is_thinking blocks

-- The first chunk of many upstreams.
abbrev role_chunk : Members
role_chunk =
    member "choices"
      (array (
        element
          (object
            (member "delta" (object (member "role" (text "assistant") no_members)) no_members))
          no_elements))
      no_members

metadata_only-process_chunk_example :
    process_chunk role_chunk (new_stream "opus")
    ≡ translated (start_message role_chunk (observe_usage role_chunk (new_stream "opus")))
unfolding get is_blank_key is_blank_delta is_blank_choice all_blank blank_choices metadata_only
metadata_only-process_chunk_example =
    metadata_only-process_chunk role_chunk (new_stream "opus") refl refl

-- A call of a server tool whose identifier lacks the prefix, and its result: the renamed call and
-- the renamed reference differ.
abbrev server_call : Members
server_call = typed "server_tool_use" (member "id" (text "a.b") no_members)

abbrev server_result : Members
server_result = typed "web_search_tool_result" (member "tool_use_id" (text "a.b") no_members)

server_call_renamed :
    get "id" (normalize_tool_id_block sample_digest server_call) ≡ text "srvtoolu_a_b_0123456789ab"
unfolding get put all_allowed after_prefix has_prefix valid_tool_use_id cleaned trim_start trim_end
    take base_of sanitize_tool_use_id normalize_id normalize_reference normalize_tool_id_block
server_call_renamed = refl

server_result_renamed :
    get "tool_use_id" (normalize_tool_id_block sample_digest server_result)
    ≡ text "a_b_0123456789ab"
unfolding get put all_allowed after_prefix has_prefix valid_tool_use_id cleaned trim_start trim_end
    take base_of sanitize_tool_use_id normalize_id normalize_reference normalize_tool_id_block
server_result_renamed = refl

sample_digest-IsDigest : (id : String) → IsDigest (sample_digest id)
unfolding all_allowed
sample_digest-IsDigest id = record { long = refl; allowed = refl }

valid-sanitize_tool_use_id_example :
    IsAccepted false (sanitize_tool_use_id sample_digest "Bash:157" false)
    × (valid_tool_use_id (sanitize_tool_use_id sample_digest "Bash:157" false) false ≡ true)
    × (sanitize_tool_use_id sample_digest
          (sanitize_tool_use_id sample_digest "Bash:157" false)
          false
        ≡ sanitize_tool_use_id sample_digest "Bash:157" false)
valid-sanitize_tool_use_id_example =
    valid-sanitize_tool_use_id sample_digest sample_digest-IsDigest "Bash:157" false

metadata_only-useful_payload_example : useful_payload role_chunk ≡ proceed true
unfolding get is_blank_key is_blank_delta is_blank_choice all_blank blank_choices metadata_only
metadata_only-useful_payload_example = metadata_only-useful_payload role_chunk refl refl refl
