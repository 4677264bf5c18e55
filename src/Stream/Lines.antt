-- ===== src/Stream/Lines.antt =====
-- The loop of `translateOpenAIStreamWithStats` of anthropic-proxy.go over the lines it reads, and
-- what it does at the end of the input. A line that `readBoundedSSELine` refuses, and an upstream
-- that breaks off, is the end `interrupted`. Statistics are left out.
use Prim.Native.String.{◌++◌ as join}
use claude_gateway.Prelude.{
  String, Bool, true, false, not, ◌&&◌, ◌||◌, none, some, List, [], ◌∷◌, ◌++◌, str_eq,
  if◌then◌else◌,
}
use claude_gateway.Json.{
  Members, no_members, Decoded, malformed, nil, decoded, get, as_text, as_object,
  unwrap_openai_envelope,
}
use claude_gateway.Stream.{error_event, Stream, new_stream, Outcome, ok, failed, write, is_empty}
use claude_gateway.Stream.Chunks.{process_chunk, finish_message}

-- A line of the input: the empty one that ends a frame, the trimmed payload of a `data:` line, or
-- another.
pub data Line : Type 0 where
  blank : Line
  payload : String → Line
  other : Line

pub data End : Type 0 where
  eof : End
  interrupted : (message : String) → End

-- What a frame, or the whole loop, leaves behind: the stream and whether the end marker was seen, or an
-- error to return.
pub data Progress : Type 0 where
  going : (saw_done : Bool) → Stream → Progress
  gave_up : (message : String) → Stream → Progress

abbrev pub join_lines : List String → String
join_lines [] = ""
join_lines (x ∷ []) = x
join_lines (x ∷ xs) = join x (join "\n" (join_lines xs))

unfoldable pub fail : String → Stream → Stream
fail message s = write (error_event message) (record s { protocol_error = true; terminated = true })

unfoldable pub error_message : Members → String
error_message report =
    let message = as_text (get "message" report) in
    if is_empty message then "upstream stream error" else message

unfoldable pub process_frame : Members → Stream → Progress
process_frame raw s =
    let chunk = unwrap_openai_envelope raw in
    elim (as_object (get "error" chunk)) [
      | some report ↦ gave_up (error_message report) (fail (error_message report) s)
      | none ↦ elim (process_chunk chunk s) [
        | ok t ↦ going false t
        | failed message t ↦ gave_up message t
      ]
    ]

-- The reason given where the upstream ends without one.
unfoldable pub stop_reason : Stream → String
stop_reason s =
    if not (is_empty s.pending_stop_reason)
    then s.pending_stop_reason
    else elim s.tool_order [ [] ↦ "end_turn" | _ ∷ _ ↦ "tool_use" ]

module _ (decode : String → Decoded) (trimmed : List String → String) where
  unfoldable pub decode_frame : String → Stream → Progress
  decode_frame frame s = elim (decode frame) [
    | malformed ↦
        gave_up "OpenAI adapter: malformed SSE JSON" (fail "OpenAI adapter: malformed SSE JSON" s)
    | nil ↦ process_frame no_members s
    | decoded chunk ↦ process_frame chunk s
  ]

  unfoldable pub flush : List String → Stream → Progress
  flush data_lines s =
      if is_empty (join_lines data_lines)
      then going false s
      else if str_eq (join_lines data_lines) "[DONE]"
      then going true s
      else decode_frame (join_lines data_lines) s

  -- What is done with the end of the input, once the loop is left.
  unfoldable pub conclude : End → Bool → Stream → Outcome
  conclude (interrupted message) saw_done s =
      failed (join "upstream stream interrupted: " message)
        (fail (join "upstream stream interrupted: " message) s)
  conclude eof saw_done s =
      if not s.started
      then failed "upstream stream ended without any completion chunk"
          (fail "upstream stream ended without any completion chunk" s)
      else if s.terminated
      then ok s
      else if not saw_done && is_empty s.pending_stop_reason
      then failed "OpenAI adapter: unexpected EOF without completion signal"
          (fail "OpenAI adapter: unexpected EOF without completion signal" s)
      else ok (finish_message decode trimmed (stop_reason s) s)

  unfoldable pub read_lines : End → List Line → List String → Stream → Outcome
  read_lines end [] data_lines s = elim (flush data_lines s) [
    | going saw_done t ↦ conclude end saw_done t
    | gave_up message t ↦ failed message t
  ]
  read_lines end (other ∷ lines) data_lines s = read_lines end lines data_lines s
  read_lines end (payload x ∷ lines) data_lines s = read_lines end lines (data_lines ++ x ∷ []) s
  read_lines end (blank ∷ lines) data_lines s = elim (flush data_lines s) [
    | gave_up message t ↦ failed message t
    | going saw_done t ↦
        if saw_done || t.terminated then conclude eof saw_done t else read_lines end lines [] t
  ]

  unfoldable pub translate : String → End → List Line → Outcome
  translate alias end lines = read_lines end lines [] (new_stream alias)
