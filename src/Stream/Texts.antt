-- ===== src/Stream/Texts.antt =====
-- The text that the translation writes is the text that the chunks bring.
use claude_gateway.Prelude.{
  ℕ, String, true, false, ◌||◌, List, [], ◌∷◌, ◌++◌, ◌≡◌, refl, suc, ◌+◌, Bool-cases, inl, inr, sym,
  ap, subst, ◌∙◌, if◌then◌else◌, if_both, option_both, arith, ltb, leb, length,
}
use Prim.Native.String.{len}
use mathlib.Core.List.{append-nil, append_assoc}
use claude_gateway.Json.{
  ℤ, Value, Elements, Members, no_elements, element, get, as_text, as_object, as_elements,
  as_members,
}
use claude_gateway.Stream.{
  Event, message_start, text_start, tool_start, text_delta, json_delta, block_stop, message_delta,
  message_stop, error_event, Stream, Outcome, ok, failed, and_then, state_of, write, is_empty,
  close_text,
}
use claude_gateway.Stream.Blocks.{Tool, find, store, new_tool}
use claude_gateway.Stream.Chunks.{
  open_text, text_content, write_deltas, start_tool, fill_tool, buffer, name_tool, tool_index,
  function_of, add_to_tool, process_call, process_tool_call, process_tool_calls, note_finish,
  process_choice, process_choices, process_chunk, observe_usage, start_message, message_id,
  max_tool_calls, max_tool_argument_bytes,
}

-- The texts of the events, in order.
unfoldable pub texts : List Event → List String
texts [] = []
texts (text_delta index content ∷ es) = content ∷ texts es
texts (_ ∷ es) = texts es

-- The texts of the choices of a chunk, the empty ones left out.
abbrev given : String → List String
given content = if is_empty content then [] else content ∷ []

abbrev pub content_of : Value → List String
content_of (Value.object choice) = given (as_text (get "content" (as_members (get "delta" choice))))
content_of _ = []

abbrev pub contents : Elements → List String
contents no_elements = []
contents (element v vs) = content_of v ++ contents vs

texts-append : (es : List Event) (e : Event) → texts (es ++ e ∷ []) ≡ texts es ++ texts (e ∷ [])
unfolding texts
texts-append [] e = refl
texts-append (text_delta i c ∷ es) e = ap (λ us. c ∷ us) (texts-append es e)
texts-append (message_start a b c ∷ es) e = texts-append es e
texts-append (text_start i ∷ es) e = texts-append es e
texts-append (tool_start i a b ∷ es) e = texts-append es e
texts-append (json_delta i c ∷ es) e = texts-append es e
texts-append (block_stop i ∷ es) e = texts-append es e
texts-append (message_delta a b c d ∷ es) e = texts-append es e
texts-append (message_stop ∷ es) e = texts-append es e
texts-append (error_event c ∷ es) e = texts-append es e

-- `t` has written the same texts as `s`.
abbrev Same : Stream → Stream → Type 0
Same s t = texts t.written ≡ texts s.written

-- An event without text.
silent : (s : Stream) (e : Event) → texts (e ∷ []) ≡ [] → Same s (write e s)
unfolding write
silent s e none_said =
    texts-append s.written e
    ∙ ap (λ us. texts s.written ++ us) none_said
    ∙ append-nil (texts s.written)

close_text-Same : (s : Stream) → Same s (close_text s)
unfolding close_text texts
close_text-Same s =
    if_both (Same s) s.text_open (record (write (block_stop s.text_index) s) { text_open = false })
      s (λ h. silent s (block_stop s.text_index) refl) (λ h. refl)

write_deltas-Same : (i : ℕ) (xs : List String) (s : Stream) → Same s (write_deltas i xs s)
unfolding write_deltas texts
write_deltas-Same i [] s = refl
write_deltas-Same i (x ∷ xs) s =
    write_deltas-Same i xs (write (json_delta i x) s) ∙ silent s (json_delta i x) refl

start_tool-Same : (k : ℤ) (b : Tool) (s : Stream) → Same s (start_tool k b s)
unfolding start_tool texts write
start_tool-Same k b s =
    write_deltas-Same (close_text s).next_block b.pending_args _
    ∙ texts-append (close_text s).written (tool_start (close_text s).next_block b.id b.name)
    ∙ append-nil (texts (close_text s).written)
    ∙ close_text-Same s

-- The state that an outcome leaves has written the same texts as `s`.
abbrev Quiet : Stream → Outcome → Type 0
Quiet s o = Same s (state_of o)

fill_tool-Quiet :
    (k : ℤ) (arguments : String) (b : Tool) (s : Stream) → Quiet s (fill_tool k arguments b s)
unfolding fill_tool texts
fill_tool-Quiet k arguments b s =
    let filled = record s { tools = store k (buffer arguments b) s.tools } in
    if_both (Quiet s) b.started
      (if is_empty arguments
        then ok s
        else ok (
            write (json_delta b.block_index arguments) (record s {
              tools =
                  store k (record b { argument_fragments = b.argument_fragments ++ arguments ∷ [] })
                    s.tools;
            })))
      (if is_empty b.id || is_empty b.name
        then ok filled
        else ok (start_tool k (buffer arguments b) filled))
      (λ running.
        if_both (Quiet s) (is_empty arguments) (ok s) (ok _) (λ h. refl)
          (λ h.
            silent
              (record s {
                tools =
                    store k
                      (record b { argument_fragments = b.argument_fragments ++ arguments ∷ [] })
                      s.tools;
              })
              (json_delta b.block_index arguments) refl))
      (λ idle.
        if_both (Quiet s) (is_empty b.id || is_empty b.name) (ok filled)
          (ok (start_tool k (buffer arguments b) filled)) (λ h. refl)
          (λ h. start_tool-Same k (buffer arguments b) filled))

add_to_tool-Quiet : (call : Members) (b : Tool) (s : Stream) → Quiet s (add_to_tool call b s)
unfolding add_to_tool
add_to_tool-Quiet call b s =
    let arguments = as_text (get "arguments" (function_of call)) in
    let n = s.argument_bytes + len arguments in
    let t = record s {
      tools = store (tool_index call) (name_tool call b) s.tools;
      argument_bytes = n;
    } in
    if_both (Quiet s) (ltb max_tool_argument_bytes n)
      (failed "OpenAI adapter: tool arguments exceed limit" t)
      (fill_tool (tool_index call) arguments (name_tool call b) t) (λ over. refl)
      (λ within. fill_tool-Quiet (tool_index call) arguments (name_tool call b) t)

process_call-Quiet : (call : Members) (s : Stream) → Quiet s (process_call call s)
unfolding process_call
process_call-Quiet call s =
    let full = failed "OpenAI adapter: too many tool calls" s in
    let fresh_tool = add_to_tool call new_tool s in
    option_both (Quiet s) (find (tool_index call) s.tools)
      (if leb max_tool_calls (length s.tools) then full else fresh_tool) (λ b. add_to_tool call b s)
      (if_both (Quiet s) (leb max_tool_calls (length s.tools)) full fresh_tool (λ h. refl)
        (λ h. add_to_tool-Quiet call new_tool s))
      (λ b. add_to_tool-Quiet call b s)

process_tool_call-Quiet : (raw : Value) (s : Stream) → Quiet s (process_tool_call raw s)
unfolding process_tool_call
process_tool_call-Quiet (Value.object call) s = process_call-Quiet call s
process_tool_call-Quiet _ s = refl

-- A call that returns nil has added the texts `us`.
abbrev AddsTo : List String → List String → Outcome → Type 0
AddsTo us old (ok t) = texts t.written ≡ old ++ us
AddsTo us old (failed message t) = Unit

abbrev Adds : List String → Stream → Outcome → Type 0
Adds us s o = AddsTo us (texts s.written) o

and_then-Adds :
    (us vs : List String) (s : Stream) (o : Outcome) (f : Stream → Outcome)
    → Adds us s o
    → ((t : Stream) → Adds vs t (f t))
    → Adds (us ++ vs) s (and_then o f)
and_then-Adds us vs s (failed message t) f added next = tt
and_then-Adds us vs s (ok t) f added next = both (f t) (next t)
  where
    both : (p : Outcome) → Adds vs t p → Adds (us ++ vs) s p
    both (failed message u) h = tt
    both (ok u) h = h ∙ ap (λ xs. xs ++ vs) added ∙ append_assoc (texts s.written) us vs

Quiet-Adds : (s : Stream) (o : Outcome) → Quiet s o → Adds [] s o
Quiet-Adds s (ok t) h = h ∙ sym (append-nil (texts s.written))
Quiet-Adds s (failed message t) h = tt

process_tool_calls-Adds : (xs : Elements) (s : Stream) → Adds [] s (process_tool_calls xs s)
unfolding process_tool_calls
process_tool_calls-Adds no_elements s = sym (append-nil (texts s.written))
process_tool_calls-Adds (element x xs) s =
    and_then-Adds [] [] s (process_tool_call x s) (process_tool_calls xs)
      (Quiet-Adds s (process_tool_call x s) (process_tool_call-Quiet x s))
      (process_tool_calls-Adds xs)

open_text-Same : (s : Stream) → Same s (open_text s)
unfolding open_text texts
open_text-Same s =
    if_both (Same s) s.text_open s _ (λ h. refl)
      (λ h.
        silent
          (record s { text_open = true; text_index = s.next_block; next_block = suc s.next_block })
          (text_start s.next_block) refl)

text_content-texts :
    (content : String) (s : Stream)
    → texts (text_content content s).written ≡ texts s.written ++ given content
unfolding text_content texts write
text_content-texts content s = elim (Bool-cases (is_empty content)) [
  | inl none_sent ↦ ground (arith, none_sent, append-nil (texts s.written))
  | inr sent ↦ ground (
    arith,
    sent,
    open_text-Same s,
    texts-append (open_text s).written (text_delta (open_text s).text_index content),
  )
]

note_finish-Same : (reason : String) (s : Stream) → Same s (note_finish reason s)
unfolding note_finish
note_finish-Same reason s = ground arith

-- Texts added before a step that adds none.
before :
    (us : List String) (s t : Stream) (o : Outcome)
    → texts t.written ≡ texts s.written ++ us
    → Adds [] t o
    → Adds us s o
before us s t (ok u) first later = later ∙ append-nil (texts t.written) ∙ first
before us s t (failed message u) first later = tt

process_choice-Adds : (raw : Value) (s : Stream) → Adds (content_of raw) s (process_choice raw s)
unfolding process_choice
process_choice-Adds (Value.object choice) s =
    let delta = as_members (get "delta" choice) in
    let content = as_text (get "content" delta) in
    let t = text_content content s in
    let calls = as_elements (get "tool_calls" delta) in
    before (given content) s t _ (text_content-texts content s) (
      and_then-Adds [] [] t (process_tool_calls calls t)
        (λ u. ok (note_finish (as_text (get "finish_reason" choice)) u))
        (process_tool_calls-Adds calls t)
        (λ u.
          Quiet-Adds u (ok (note_finish (as_text (get "finish_reason" choice)) u))
            (note_finish-Same (as_text (get "finish_reason" choice)) u)))
process_choice-Adds _ s = sym (append-nil (texts s.written))

process_choices-Adds : (xs : Elements) (s : Stream) → Adds (contents xs) s (process_choices xs s)
unfolding process_choices
process_choices-Adds no_elements s = sym (append-nil (texts s.written))
process_choices-Adds (element x xs) s =
    and_then-Adds (content_of x) (contents xs) s (process_choice x s) (process_choices xs)
      (process_choice-Adds x s) (process_choices-Adds xs)

observe_usage-Same : (chunk : Members) (s : Stream) → Same s (observe_usage chunk s)
unfolding observe_usage
observe_usage-Same chunk s =
    option_both (Same s) (as_object (get "usage" chunk)) s _ refl (λ usage. refl)

start_message-Same : (chunk : Members) (s : Stream) → Same s (start_message chunk s)
unfolding start_message texts
start_message-Same chunk s =
    if_both (Same s) s.started s _ (λ h. refl)
      (λ h.
        silent (record s { started = true })
          (message_start (message_id chunk) s.alias s.input_tokens) refl)

-- A chunk that is translated without an error adds to the texts written the contents of its
-- choices, in order and unchanged, and nothing else.
pub process_chunk-Adds :
    (chunk : Members) (s t : Stream)
    → process_chunk chunk s ≡ ok t
    → texts t.written ≡ texts s.written ++ contents (as_elements (get "choices" chunk))
unfolding process_chunk
process_chunk-Adds chunk s t returned =
    let begun = start_message chunk (observe_usage chunk s) in
    let choices = as_elements (get "choices" chunk) in
    subst (Adds (contents choices) s) returned (
      subst (λ us. AddsTo (contents choices) us (process_choices choices begun))
        (start_message-Same chunk (observe_usage chunk s) ∙ observe_usage-Same chunk s)
        (process_choices-Adds choices begun))
