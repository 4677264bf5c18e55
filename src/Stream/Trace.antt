-- ===== src/Stream/Trace.antt =====
-- Whatever the upstream sends, the events that the translation writes are accepted by the monitor.
use claude_gateway.Prelude.{
  String, Bool, true, false, not, ◌&&◌, ◌||◌, List, [], ◌∷◌, ◌++◌, ◌≡◌, ◌≢◌, refl, if_both,
  option_both, arith, str_eq,
}
use Prim.Native.String.{◌++◌ as join}
use claude_gateway.Json.{
  ℤ, Value, Elements, Members, no_elements, element, no_members, Decoded, malformed, nil, decoded,
  get, as_text, as_object, as_elements, as_members, unwrap_openai_envelope,
}
use claude_gateway.Stream.{message_start, Stream, new_stream, Outcome, ok, failed, write, is_empty}
use claude_gateway.Stream.Chunks.{
  observe_usage, start_message, message_id, note_finish, process_choice, process_choices,
  process_chunk, process_tool_calls, text_content, finish_message,
}
use claude_gateway.Stream.Lines.{
  Line, blank, payload, other, End, eof, interrupted, Progress, going, gave_up, join_lines, fail,
  error_message, process_frame, decode_frame, flush, conclude, stop_reason, read_lines, translate,
}
use claude_gateway.Stream.Monitor.{stopped, begin, accept, watch, watch-snoc}
use claude_gateway.Stream.Steps.{Good, view, text_content-Good}
use claude_gateway.Stream.Calls.{Leaves, and_then-Leaves, process_tool_calls-Good}
use claude_gateway.Stream.Ends.{Reaches, Reaches-error, Finished, finish_message-Finished}

count_usage :
    (b : Bool) (s : Stream) (input output cached : ℤ)
    → Good b s
    → Good b (record s { input_tokens = input; output_tokens = output; cache_read_tokens = cached })
count_usage b s input output cached g = record {
  tools_open = g.tools_open;
  seen = g.seen;
  chain = g.chain;
  room = g.room;
  known = g.known;
  unclosed = g.unclosed;
  begun = g.begun;
  unfinished = g.unfinished;
}

observe_usage-Good :
    (b : Bool) (chunk : Members) (s : Stream) → Good b s → Good b (observe_usage chunk s)
unfolding observe_usage
observe_usage-Good b chunk s g =
    option_both (Good b) (as_object (get "usage" chunk)) s _ g (λ usage. count_usage b s _ _ _ g)

starts :
    (id model : String) (input : ℤ) (s : Stream)
    → Good false s
    → Good true (write (message_start id model input) (record s { started = true }))
unfolding write accept
starts id model input s g = record {
  tools_open = g.tools_open;
  seen =
      watch-snoc s.written (message_start id model input) begin (view false s g.tools_open)
        (view true s g.tools_open) g.seen refl;
  chain = g.chain;
  room = g.room;
  known = g.known;
  unclosed = g.unclosed;
  begun = refl;
  unfinished = g.unfinished;
}

start_message-Good :
    (b : Bool) (chunk : Members) (s : Stream) → Good b s → Good true (start_message chunk s)
unfolding start_message
start_message-Good true chunk s g =
    if_both (Good true) s.started s _ (λ h. g) (λ h. ground (arith, g.begun, h))
start_message-Good false chunk s g =
    if_both (Good true) s.started s _ (λ h. ground (arith, g.begun, h))
      (λ h. starts (message_id chunk) s.alias s.input_tokens s g)

note_finish-Good : (reason : String) (s : Stream) → Good true s → Good true (note_finish reason s)
unfolding note_finish
note_finish-Good reason s g =
    if_both (Good true) (not (is_empty reason) && not s.terminated) _ s
      (λ h. record {
        tools_open = g.tools_open;
        seen = g.seen;
        chain = g.chain;
        room = g.room;
        known = g.known;
        unclosed = g.unclosed;
        begun = g.begun;
        unfinished = g.unfinished;
      })
      (λ h. g)

process_choice-Good : (raw : Value) (s : Stream) → Good true s → Leaves (process_choice raw s)
unfolding process_choice
process_choice-Good (Value.object choice) s g =
    let delta = as_members (get "delta" choice) in
    and_then-Leaves
      (process_tool_calls (as_elements (get "tool_calls" delta))
        (text_content (as_text (get "content" delta)) s))
      _
      (process_tool_calls-Good (as_elements (get "tool_calls" delta)) _
        (text_content-Good (as_text (get "content" delta)) s g))
      (note_finish-Good (as_text (get "finish_reason" choice)))
process_choice-Good _ s g = g

process_choices-Good : (xs : Elements) (s : Stream) → Good true s → Leaves (process_choices xs s)
unfolding process_choices
process_choices-Good no_elements s g = g
process_choices-Good (element x xs) s g =
    and_then-Leaves (process_choice x s) (process_choices xs) (process_choice-Good x s g)
      (process_choices-Good xs)

process_chunk-Good :
    (b : Bool) (chunk : Members) (s : Stream) → Good b s → Leaves (process_chunk chunk s)
unfolding process_chunk
process_chunk-Good b chunk s g =
    process_choices-Good (as_elements (get "choices" chunk)) _
      (start_message-Good b chunk (observe_usage chunk s) (observe_usage-Good b chunk s g))

-- What was written is the beginning of a message, or ends with an error; it is not complete.
abbrev pub IsCut : Stream → Type 0
IsCut s = Reaches (λ p. p ≢ stopped) s

Good-IsCut : (b : Bool) (s : Stream) → Good b s → IsCut s
Good-IsCut true s g = (view true s g.tools_open, g.seen, ground arith)
Good-IsCut false s g = (view false s g.tools_open, g.seen, ground arith)

fail-IsCut : (b : Bool) (message : String) (s : Stream) → Good b s → IsCut (fail message s)
unfolding fail
fail-IsCut b message s g =
    let (m, seen, at) =
      Reaches-error b message (record s { protocol_error = true; terminated = true })
        (view b s g.tools_open) g.seen refl in
    (m, seen, ground (arith, at))

-- The state between two frames, or after an error.
abbrev pub Ongoing : Progress → Type 0
Ongoing (going saw_done s) = (b : Bool) × Good b s
Ongoing (gave_up message s) = IsCut s

process_frame-Ongoing :
    (b : Bool) (raw : Members) (s : Stream) → Good b s → Ongoing (process_frame raw s)
unfolding process_frame
process_frame-Ongoing b raw s g =
    let chunk = unwrap_openai_envelope raw in
    option_both Ongoing (as_object (get "error" chunk)) _ _
      (outcome_Ongoing (process_chunk chunk s) (process_chunk-Good b chunk s g))
      (λ report. fail-IsCut b (error_message report) s g)
  where
    outcome_Ongoing :
        (o : Outcome)
        → Leaves o
        → Ongoing (elim o [ ok t ↦ going false t | failed message t ↦ gave_up message t ])
    outcome_Ongoing (ok t) h = (true, h)
    outcome_Ongoing (failed message t) h = Good-IsCut true t h

-- A translation that returns nil has written a complete message, or one that ends with an error
-- where some tool is not sound; one that returns an error has not completed the message.
abbrev pub IsWellFormed : (String → Decoded) → (List String → String) → Outcome → Type 0
IsWellFormed decode trimmed (ok s) = Finished decode trimmed s
IsWellFormed decode trimmed (failed message s) = IsCut s

stop_reason_given : (s : Stream) → is_empty (stop_reason s) ≡ false
unfolding stop_reason
stop_reason_given s =
    if_both (λ reason. is_empty reason ≡ false) (not (is_empty s.pending_stop_reason)) _ _
      (λ given. ground arith) (λ missing. default_given s.tool_order)
  where
    default_given :
        (order : List ℤ) → is_empty (elim order [ [] ↦ "end_turn" | _ ∷ _ ↦ "tool_use" ]) ≡ false
    default_given [] = refl
    default_given (k ∷ ks) = refl

begun_message : (b : Bool) (s : Stream) → Good b s → s.started ≡ true → Good true s
begun_message true s g h = g
begun_message false s g h = ground (arith, g.begun, h)

module _ (decode : String → Decoded) (trimmed : List String → String) where
  decode_frame-Ongoing :
      (b : Bool) (frame : String) (s : Stream)
      → Good b s
      → Ongoing (decode_frame decode trimmed frame s)
  unfolding decode_frame
  decode_frame-Ongoing b frame s g = decoded_Ongoing (decode frame)
    where
      decoded_Ongoing :
          (d : Decoded)
          → Ongoing (elim d [
            | malformed ↦
                gave_up "OpenAI adapter: malformed SSE JSON"
                  (fail "OpenAI adapter: malformed SSE JSON" s)
            | nil ↦ process_frame no_members s
            | decoded chunk ↦ process_frame chunk s
          ])
      decoded_Ongoing malformed = fail-IsCut b "OpenAI adapter: malformed SSE JSON" s g
      decoded_Ongoing nil = process_frame-Ongoing b no_members s g
      decoded_Ongoing (decoded chunk) = process_frame-Ongoing b chunk s g

  flush-Ongoing :
      (b : Bool) (data_lines : List String) (s : Stream)
      → Good b s
      → Ongoing (flush decode trimmed data_lines s)
  unfolding flush
  flush-Ongoing b data_lines s g =
      let frame = join_lines data_lines in
      if_both Ongoing (is_empty frame) (going false s) _ (λ h. (b, g))
        (λ h.
          if_both Ongoing (str_eq frame "[DONE]") (going true s) _ (λ h. (b, g))
            (λ h. decode_frame-Ongoing b frame s g))

  concludes :
      (end : End) (saw_done b : Bool) (s : Stream)
      → Good b s
      → IsWellFormed decode trimmed (conclude decode trimmed end saw_done s)
  unfolding conclude
  concludes (interrupted message) saw_done b s g =
      fail-IsCut b (join "upstream stream interrupted: " message) s g
  concludes eof saw_done b s g =
      if_both (IsWellFormed decode trimmed) (not s.started)
        (failed "upstream stream ended without any completion chunk"
          (fail "upstream stream ended without any completion chunk" s))
        _ (λ h. fail-IsCut b "upstream stream ended without any completion chunk" s g)
        (λ some_chunk.
          if_both (IsWellFormed decode trimmed) s.terminated (ok s) _
            (λ h. ground (arith, g.unfinished))
            (λ h.
              if_both (IsWellFormed decode trimmed) (not saw_done && is_empty s.pending_stop_reason)
                (failed "OpenAI adapter: unexpected EOF without completion signal"
                  (fail "OpenAI adapter: unexpected EOF without completion signal" s))
                (ok (finish_message decode trimmed (stop_reason s) s))
                (λ h. fail-IsCut b "OpenAI adapter: unexpected EOF without completion signal" s g)
                (λ h.
                  finish_message-Finished decode trimmed (stop_reason s) s (stop_reason_given s)
                    (begun_message b s g (ground (arith, some_chunk))))))

  next_frame :
      (p : Progress) (next : Bool → Stream → Outcome)
      → Ongoing p
      → ((saw_done b : Bool) (s : Stream)
          → Good b s
          → IsWellFormed decode trimmed (next saw_done s))
      → IsWellFormed decode trimmed
          (elim p [ going saw_done t ↦ next saw_done t | gave_up message t ↦ failed message t ])
  next_frame (going saw_done s) next (b, g) then_next = then_next saw_done b s g
  next_frame (gave_up message s) next cut then_next = cut

  read_lines-IsWellFormed :
      (end : End) (lines : List Line) (data_lines : List String) (b : Bool) (s : Stream)
      → Good b s
      → IsWellFormed decode trimmed (read_lines decode trimmed end lines data_lines s)
  unfolding read_lines
  read_lines-IsWellFormed end [] data_lines b s g =
      next_frame (flush decode trimmed data_lines s) (conclude decode trimmed end)
        (flush-Ongoing b data_lines s g) (concludes end)
  read_lines-IsWellFormed end (other ∷ lines) data_lines b s g =
      read_lines-IsWellFormed end lines data_lines b s g
  read_lines-IsWellFormed end (payload x ∷ lines) data_lines b s g =
      read_lines-IsWellFormed end lines (data_lines ++ x ∷ []) b s g
  read_lines-IsWellFormed end (blank ∷ lines) data_lines b s g =
      next_frame (flush decode trimmed data_lines s) _ (flush-Ongoing b data_lines s g)
        (λ saw_done c t h.
          if_both (IsWellFormed decode trimmed) (saw_done || t.terminated)
            (conclude decode trimmed eof saw_done t) (read_lines decode trimmed end lines [] t)
            (λ over. concludes eof saw_done c t h)
            (λ more. read_lines-IsWellFormed end lines [] c t h))

  new_stream-Good : (alias : String) → Good false (new_stream alias)
  unfolding watch
  new_stream-Good alias = record {
    tools_open = [];
    seen = refl;
    chain = omega arith;
    room = λ h. ground arith;
    known = λ k b found begun. ground (arith, found);
    unclosed = λ k b found. ground (arith, found);
    begun = refl;
    unfinished = (refl, refl);
  }

-- Whatever lines the upstream sends, however it ends, and whatever the decoder makes of its
-- frames, the events written are accepted by the monitor of the protocol. If the translation
-- returns nil, they are a complete message where every tool is sound, and else end with an error
-- event. A tool is sound if its arguments are empty or the JSON of an object, and its block was
-- started or nothing came of it. If the translation returns an error, the message is not complete.
pub translate-IsWellFormed :
    (decode : String → Decoded) (trimmed : List String → String) (alias : String) (end : End)
    (lines : List Line)
    → IsWellFormed decode trimmed (translate decode trimmed alias end lines)
unfolding translate
translate-IsWellFormed decode trimmed alias end lines =
    read_lines-IsWellFormed decode trimmed end lines [] false (new_stream alias)
      (new_stream-Good decode trimmed alias)
