-- ===== src/Stream/Limits.antt =====
-- The bounds on the tool calls of a stream: their number, and the bytes of their arguments.
use Prim.Native.String.{len}
use Prim.Native.String.len
use claude_gateway.Prelude.{
  eq_iff, Bool-cases, inl, inr, sym, ℕ, ◌+◌, suc, ◌≤◌, String, true, ◌||◌, Option, none, some, List,
  [], ◌∷◌, ◌++◌, ◌≡◌, refl, ap, subst, ◌∙◌, if◌then◌else◌, if_both, option_both, arith, ltb, leb,
  length,
}
use claude_gateway.Json.{
  same, ℤ, Value, Elements, Members, no_elements, element, get, as_text, as_object, as_elements,
  as_members,
}
use claude_gateway.Stream.{
  json_delta, tool_start, Stream, Outcome, ok, failed, and_then, write, is_empty, close_text,
}
use claude_gateway.Stream.Blocks.{Tool, Tools, find, store, new_tool}
use claude_gateway.Stream.Calls.{find-store_same, close_text_keeps}
use claude_gateway.Stream.Chunks.{
  open_text, text_content, write_deltas, start_tool, fill_tool, buffer, name_tool, tool_index,
  function_of, add_to_tool, process_call, process_tool_call, process_tool_calls, note_finish,
  process_choice, process_choices, process_chunk, observe_usage, start_message, max_tool_calls,
  max_tool_argument_bytes,
}

-- The bytes of the arguments that the tools hold.
unfoldable pub bytes : List String → ℕ
bytes [] = 0
bytes (x ∷ xs) = len x + bytes xs

unfoldable pub held_bytes : Tools → ℕ
held_bytes [] = 0
held_bytes ((k, b) ∷ m) = bytes b.argument_fragments + held_bytes m

-- At most 128 tools, which hold at most 8 MiB of arguments; the counter is what they hold.
abbrev pub IsBounded : Stream → Type 0
IsBounded s =
    (length s.tools ≤ max_tool_calls)
    × (held_bytes s.tools ≤ max_tool_argument_bytes)
    × (s.argument_bytes ≡ held_bytes s.tools)

bytes-snoc : (xs : List String) (x : String) → bytes (xs ++ x ∷ []) ≡ bytes xs + len x
unfolding bytes
bytes-snoc [] x = omega arith
bytes-snoc (y ∷ xs) x = omega (arith, bytes-snoc xs x)

held-store_found :
    (k : ℤ) (b c : Tool) (m : Tools)
    → find k m ≡ some b
    → held_bytes (store k c m) + bytes b.argument_fragments
      ≡ held_bytes m + bytes c.argument_fragments
unfolding held_bytes
held-store_found k b c [] found = ground arith
held-store_found k b c ((j, d) ∷ m) found = elim (Bool-cases (same j k)) [
  | inl here ↦
      let mine : d ≡ b = ground (arith, here, found) in
      let count = ap (λ (t : Tool). bytes t.argument_fragments) mine in ground (arith, here, count)
  | inr other ↦ ground (arith, other, found, held-store_found k b c m)
]

held-store_missing :
    (k : ℤ) (c : Tool) (m : Tools)
    → find k m ≡ none
    → held_bytes (store k c m) ≡ held_bytes m + bytes c.argument_fragments
unfolding held_bytes
held-store_missing k c [] missing = omega arith
held-store_missing k c ((j, d) ∷ m) missing = ground (arith, held-store_missing k c m)

-- Storing a tool again with the same arguments.
held-store_again :
    (k : ℤ) (b c : Tool) (m : Tools)
    → find k m ≡ some b
    → c.argument_fragments ≡ b.argument_fragments
    → held_bytes (store k c m) ≡ held_bytes m
held-store_again k b c m found same_arguments =
    omega (arith, held-store_found k b c m found, ap bytes same_arguments)

-- A tool that has got one fragment more.
held-store_more :
    (k : ℤ) (b c : Tool) (arguments : String) (m : Tools)
    → find k m ≡ some b
    → c.argument_fragments ≡ b.argument_fragments ++ arguments ∷ []
    → held_bytes (store k c m) ≡ held_bytes m + len arguments
held-store_more k b c arguments m found grown = omega (
  arith,
  held-store_found k b c m found,
  ap bytes grown ∙ bytes-snoc b.argument_fragments arguments,
)

no_bytes : (s : String) → is_empty s ≡ true → len s ≡ 0
no_bytes s h = ap len ((eq_iff s "").0 h) ∙ len.nil

-- A call that returns nil leaves a bounded stream.
abbrev Stays : Outcome → Type 0
Stays (ok t) = IsBounded t
Stays (failed message t) = Unit

length-store_found :
    (k : ℤ) (b c : Tool) (m : Tools) → find k m ≡ some b → length (store k c m) ≡ length m
length-store_found k b c [] found = ground arith
length-store_found k b c ((j, d) ∷ m) found = ground (arith, length-store_found k b c m)

length-store_missing :
    (k : ℤ) (c : Tool) (m : Tools) → find k m ≡ none → length (store k c m) ≡ suc (length m)
length-store_missing k c [] missing = omega arith
length-store_missing k c ((j, d) ∷ m) missing = ground (arith, length-store_missing k c m)

-- The tools and the bytes of `t` are those of `s`.
abbrev Alike : Stream → Stream → Type 0
Alike s t = (t.tools ≡ s.tools) × (t.argument_bytes ≡ s.argument_bytes)

write_deltas-Alike : (i : ℕ) (xs : List String) (s : Stream) → Alike s (write_deltas i xs s)
unfolding write_deltas write
write_deltas-Alike i [] s = (refl, refl)
write_deltas-Alike i (x ∷ xs) s = write_deltas-Alike i xs (write (json_delta i x) s)

close_text_bytes : (s : Stream) → (close_text s).argument_bytes ≡ s.argument_bytes
unfolding close_text write
close_text_bytes s = ground arith

text_content-Alike : (content : String) (s : Stream) → Alike s (text_content content s)
unfolding text_content open_text write
text_content-Alike content s = ground arith

observe_usage-Alike : (chunk : Members) (s : Stream) → Alike s (observe_usage chunk s)
unfolding observe_usage
observe_usage-Alike chunk s =
    option_both (Alike s) (as_object (get "usage" chunk)) s _ (refl, refl) (λ usage. (refl, refl))

start_message-Alike : (chunk : Members) (s : Stream) → Alike s (start_message chunk s)
unfolding start_message write
start_message-Alike chunk s =
    if_both (Alike s) s.started s _ (λ h. (refl, refl)) (λ h. (refl, refl))

note_finish-Alike : (reason : String) (s : Stream) → Alike s (note_finish reason s)
unfolding note_finish
note_finish-Alike reason s = ground arith

Alike-IsBounded : (s t : Stream) → Alike s t → IsBounded s → IsBounded t
Alike-IsBounded s t a b = ground (arith, ap length a.0, ap held_bytes a.0)

-- The stream has as many tools as `s`, and as many bytes.
abbrev SameSize : Stream → Stream → Type 0
SameSize s t =
    (length t.tools ≡ length s.tools)
    × (t.argument_bytes ≡ s.argument_bytes)
    × (held_bytes t.tools ≡ held_bytes s.tools)

start_tool-SameSize :
    (k : ℤ) (b : Tool) (s : Stream) → find k s.tools ≡ some b → SameSize s (start_tool k b s)
unfolding start_tool write
start_tool-SameSize k b s found =
    let t = close_text s in
    let c = record b { block_index = t.next_block; started = true } in
    let opened = write (tool_start t.next_block b.id b.name) (record t {
      next_block = suc t.next_block;
      tools = store k c t.tools;
      tool_order = t.tool_order ++ k ∷ [];
    }) in
    let sent = write_deltas-Alike t.next_block b.pending_args opened in
    let same_tools = (close_text_keeps s).1 in
    let last = record c { pending_args = [] } in
    (
      ap (λ m. length (store k last m)) sent.0
          ∙ length-store_found k c last (store k c t.tools) (find-store_same t.tools k c)
          ∙ length-store_found k b c t.tools (ap (find k) same_tools ∙ found)
          ∙ ap length same_tools,
      sent.1 ∙ close_text_bytes s,
      ap (λ m. held_bytes (store k last m)) sent.0
          ∙ held-store_again k c last (store k c t.tools) (find-store_same t.tools k c) refl
          ∙ held-store_again k b c t.tools (ap (find k) same_tools ∙ found) refl
          ∙ ap held_bytes same_tools,
    )

-- The stream has counted the arguments that a tool is to get.
abbrev Counted : String → Stream → Type 0
Counted arguments s =
    (length s.tools ≤ max_tool_calls)
    × (s.argument_bytes ≤ max_tool_argument_bytes)
    × (s.argument_bytes ≡ held_bytes s.tools + len arguments)

buffered :
    (k : ℤ) (arguments : String) (b : Tool) (m : Tools)
    → find k m ≡ some b
    → held_bytes (store k (buffer arguments b) m) ≡ held_bytes m + len arguments
unfolding buffer
buffered k arguments b m found = elim (Bool-cases (is_empty arguments)) [
  | inl blank ↦ omega (
    arith,
    held-store_again k b (buffer arguments b) m found (
        ap (λ e. if e then b.argument_fragments else b.argument_fragments ++ arguments ∷ []) blank),
    no_bytes arguments blank,
  )
  | inr some_text ↦ held-store_more k b (buffer arguments b) arguments m found (
      ap (λ e. if e then b.argument_fragments else b.argument_fragments ++ arguments ∷ [])
        some_text)
]

fill_tool-Stays :
    (k : ℤ) (arguments : String) (b : Tool) (s : Stream)
    → find k s.tools ≡ some b
    → Counted arguments s
    → Stays (fill_tool k arguments b s)
unfolding fill_tool write
fill_tool-Stays k arguments b s found counted =
    let c = record b { argument_fragments = b.argument_fragments ++ arguments ∷ [] } in
    let d = buffer arguments b in
    let kept = record s { tools = store k d s.tools } in
    if_both Stays b.started
      (if is_empty arguments
        then ok s
        else ok
            (write (json_delta b.block_index arguments) (record s { tools = store k c s.tools })))
      (if is_empty b.id || is_empty b.name then ok kept else ok (start_tool k d kept))
      (λ running.
        if_both Stays (is_empty arguments) (ok s) _
          (λ h.
            let nothing = no_bytes arguments h in
            (counted.0, omega (arith, counted, nothing), omega (arith, counted, nothing)))
          (λ h.
            let more = held-store_more k b c arguments s.tools found refl in
            (
              omega (arith, counted, length-store_found k b c s.tools found),
              omega (arith, counted, more),
              omega (arith, counted, more),
            )))
      (λ idle.
        let same_length = length-store_found k b d s.tools found in
        let more = buffered k arguments b s.tools found in
        if_both Stays (is_empty b.id || is_empty b.name) (ok kept) (ok (start_tool k d kept))
          (λ h. (
            omega (arith, counted, same_length),
            omega (arith, counted, more),
            omega (arith, counted, more),
          ))
          (λ h.
            let size = start_tool-SameSize k d kept (find-store_same s.tools k d) in
            (
              omega (arith, counted, same_length, size),
              omega (arith, counted, size, more),
              omega (arith, counted, size, more),
            )))

add_to_tool-Stays :
    (call : Members) (b : Tool) (s : Stream)
    → length (store (tool_index call) (name_tool call b) s.tools) ≤ max_tool_calls
    → s.argument_bytes ≡ held_bytes (store (tool_index call) (name_tool call b) s.tools)
    → Stays (add_to_tool call b s)
unfolding add_to_tool
add_to_tool-Stays call b s few same_bytes =
    let arguments = as_text (get "arguments" (function_of call)) in
    let n = s.argument_bytes + len arguments in
    let t = record s {
      tools = store (tool_index call) (name_tool call b) s.tools;
      argument_bytes = n;
    } in
    if_both Stays (ltb max_tool_argument_bytes n)
      (failed "OpenAI adapter: tool arguments exceed limit" t)
      (fill_tool (tool_index call) arguments (name_tool call b) t) (λ over. tt)
      (λ within.
        fill_tool-Stays (tool_index call) arguments (name_tool call b) t
          (find-store_same s.tools (tool_index call) (name_tool call b))
          (few, ground (arith, within), omega (arith, same_bytes)))

name_tool_arguments :
    (call : Members) (b : Tool) → (name_tool call b).argument_fragments ≡ b.argument_fragments
unfolding name_tool
name_tool_arguments call b = refl

nothing_held : bytes [] ≡ 0
unfolding bytes
nothing_held = refl

process_call_at :
    (call : Members) (s : Stream) (o : Option Tool)
    → find (tool_index call) s.tools ≡ o
    → IsBounded s
    → Stays (elim o [
      | some b ↦ add_to_tool call b s
      | none ↦
          if leb max_tool_calls (length s.tools)
          then failed "OpenAI adapter: too many tool calls" s
          else add_to_tool call new_tool s
    ])
process_call_at call s (some b) found bounded =
    add_to_tool-Stays call b s
      (omega
        (arith, bounded, length-store_found (tool_index call) b (name_tool call b) s.tools found))
      (bounded.2
        ∙ sym (
            held-store_again (tool_index call) b (name_tool call b) s.tools found
              (name_tool_arguments call b)))
process_call_at call s none missing bounded =
    if_both Stays (leb max_tool_calls (length s.tools))
      (failed "OpenAI adapter: too many tool calls" s) (add_to_tool call new_tool s) (λ full. tt)
      (λ fits.
        add_to_tool-Stays call new_tool s
          (ground (
            arith,
            fits,
            length-store_missing (tool_index call) (name_tool call new_tool) s.tools missing,
          ))
          (omega (
            arith,
            bounded,
            held-store_missing (tool_index call) (name_tool call new_tool) s.tools missing,
            ap bytes (name_tool_arguments call new_tool) ∙ nothing_held,
          )))

process_tool_call-Stays : (raw : Value) (s : Stream) → IsBounded s → Stays (process_tool_call raw s)
unfolding process_tool_call process_call
process_tool_call-Stays (Value.object call) s bounded =
    process_call_at call s (find (tool_index call) s.tools) refl bounded
process_tool_call-Stays _ s bounded = bounded

and_then-Stays :
    (o : Outcome) (f : Stream → Outcome)
    → Stays o
    → ((t : Stream) → IsBounded t → Stays (f t))
    → Stays (and_then o f)
and_then-Stays (ok t) f bounded next = next t bounded
and_then-Stays (failed message t) f bounded next = tt

process_tool_calls-Stays :
    (xs : Elements) (s : Stream) → IsBounded s → Stays (process_tool_calls xs s)
unfolding process_tool_calls
process_tool_calls-Stays no_elements s bounded = bounded
process_tool_calls-Stays (element x xs) s bounded =
    and_then-Stays (process_tool_call x s) (process_tool_calls xs)
      (process_tool_call-Stays x s bounded) (process_tool_calls-Stays xs)

process_choice-Stays : (raw : Value) (s : Stream) → IsBounded s → Stays (process_choice raw s)
unfolding process_choice
process_choice-Stays (Value.object choice) s bounded =
    let delta = as_members (get "delta" choice) in
    let content = as_text (get "content" delta) in
    let reason = as_text (get "finish_reason" choice) in
    let t = text_content content s in
    and_then-Stays (process_tool_calls (as_elements (get "tool_calls" delta)) t)
      (λ u. ok (note_finish reason u))
      (process_tool_calls-Stays (as_elements (get "tool_calls" delta)) t
        (Alike-IsBounded s t (text_content-Alike content s) bounded))
      (λ u. Alike-IsBounded u (note_finish reason u) (note_finish-Alike reason u))
process_choice-Stays _ s bounded = bounded

process_choices-Stays : (xs : Elements) (s : Stream) → IsBounded s → Stays (process_choices xs s)
unfolding process_choices
process_choices-Stays no_elements s bounded = bounded
process_choices-Stays (element x xs) s bounded =
    and_then-Stays (process_choice x s) (process_choices xs) (process_choice-Stays x s bounded)
      (process_choices-Stays xs)

-- A chunk that is translated without an error keeps a stream within its bounds: at most 128 tool
-- calls, whose argument fragments are at most 8 MiB all together, which is what the stream has
-- counted.
pub process_chunk-IsBounded :
    (chunk : Members) (s t : Stream) → IsBounded s → process_chunk chunk s ≡ ok t → IsBounded t
unfolding process_chunk
process_chunk-IsBounded chunk s t bounded returned =
    let counted = observe_usage chunk s in
    let begun = start_message chunk counted in
    subst Stays returned (
      process_choices-Stays (as_elements (get "choices" chunk)) begun (
        Alike-IsBounded counted begun (start_message-Alike chunk counted)
          (Alike-IsBounded s counted (observe_usage-Alike chunk s) bounded)))
