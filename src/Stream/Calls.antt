-- ===== src/Stream/Calls.antt =====
-- The steps on tool calls keep what holds of a stream.
use claude_gateway.Prelude.{
  ℕ, ◌+◌, suc, String, true, false, ◌||◌, Option, none, some, List, [], ◌∷◌, ◌++◌, ◌≡◌, refl, sym,
  ap, subst, ◌∙◌, if◌then◌else◌, Bool-cases, inl, inr, if_both, arith, ==_iff, ltb, leb, length,
}
use Prim.Native.String.{len}
use claude_gateway.Json.{ℤ, Value, Elements, Members, no_elements, element, get, as_text, same}
use claude_gateway.Stream.{
  tool_start, json_delta, Stream, Outcome, ok, failed, and_then, state_of, write, is_empty,
  close_text,
}
use claude_gateway.Stream.Blocks.{
  Tool, Tools, find, store, find-store, same→eq, same_refl, new_tool,
}
use claude_gateway.Stream.Chunks.{
  fill_tool, start_tool, buffer, write_deltas, name_tool, add_to_tool, process_call, tool_index,
  function_of, process_tool_call, process_tool_calls, max_tool_calls, max_tool_argument_bytes,
}
use claude_gateway.Stream.Monitor.{
  Kind, text_block, tool_block, begin, accept, watch, watch-snoc, opened,
}
use claude_gateway.Stream.Chains.{
  Chain, Chain-store, Chain-snoc, Among, Among-snoc, KeepsBlock, kind_at-Chain, kind_at-if,
}
use claude_gateway.Stream.Steps.{Good, view_of, Good-Chain, seen_of, close_text-Good, write_same}

-- Storing a tool that keeps its block.
store-Good :
    (s : Stream) (k : ℤ) (c : Tool) (n : ℕ)
    → Good true s
    → KeepsBlock s.tools k c
    → (c.started ≡ true → Among k s.tool_order)
    → c.closed ≡ false
    → Good true (record s { tools = store k c s.tools; argument_bytes = n })
store-Good s k c n g keeps among still_open = record {
  tools_open = g.tools_open;
  seen = g.seen;
  chain = Chain-store s.tools k c 0 s.tool_order g.tools_open _ keeps g.chain;
  room = g.room;
  known = λ j b found begun. elim (Bool-cases (same k j)) [
    | inl alike ↦
        subst (λ z. Among z s.tool_order) (same→eq k j alike)
          (among (ground (arith, find-store k j c s.tools)))
    | inr apart_keys ↦ g.known j b (ground (arith, find-store k j c s.tools)) begun
  ];
  unclosed = λ j b found. elim (Bool-cases (same k j)) [
    | inl alike ↦ ground (arith, find-store k j c s.tools)
    | inr apart_keys ↦ g.unclosed j b (ground (arith, find-store k j c s.tools))
  ];
  begun = g.begun;
  unfinished = g.unfinished;
}

pub find-store_same : (t : Tools) (k : ℤ) (c : Tool) → find k (store k c t) ≡ some c
find-store_same t k c = ground (arith, find-store k k c t, same_refl k)

-- A change of the stored tool that leaves its block alone.
update-Good :
    (s : Stream) (k : ℤ) (b c : Tool) (n : ℕ)
    → Good true s
    → find k s.tools ≡ some b
    → c.started ≡ b.started
    → c.closed ≡ b.closed
    → c.block_index ≡ b.block_index
    → Good true (record s { tools = store k c s.tools; argument_bytes = n })
update-Good s k b c n g found started closed index =
    store-Good s k c n g (λ d stored begun. let e = sym stored ∙ found in ground (arith, e))
      (λ begun. g.known k b found (ground arith)) (closed ∙ g.unclosed k b found)

write_json-Good :
    (s : Stream) (k : ℤ) (b : Tool) (partial : String)
    → Good true s
    → find k s.tools ≡ some b
    → Among k s.tool_order
    → Good true (write (json_delta b.block_index partial) s)
unfolding accept
write_json-Good s k b partial g found among = write_same s (json_delta b.block_index partial) g (
    ground (
      arith,
      kind_at-if s.text_open b.block_index g.tools_open ((s.text_index, text_block) ∷ []) tool_block
          (kind_at-Chain s.tools 0 s.tool_order g.tools_open _ k b g.chain among found),
    ))

write_deltas-Good :
    (xs : List String) (s : Stream) (k : ℤ) (b : Tool)
    → Good true s
    → find k s.tools ≡ some b
    → Among k s.tool_order
    → Good true (write_deltas b.block_index xs s)
      × (find k (write_deltas b.block_index xs s).tools ≡ some b)
unfolding write_deltas write
write_deltas-Good [] s k b g found among = (g, found)
write_deltas-Good (x ∷ xs) s k b g found among =
    write_deltas-Good xs (write (json_delta b.block_index x) s) k b
      (write_json-Good s k b x g found among) found among

pub close_text_keeps :
    (s : Stream)
    → ((close_text s).text_open ≡ false)
      × ((close_text s).tools ≡ s.tools)
      × ((close_text s).tool_order ≡ s.tool_order)
unfolding close_text write
close_text_keeps s = ground arith

-- The block of a tool is opened, where no text is open.
opened_tool : ℤ → Tool → Stream → Stream
opened_tool k b s = write (tool_start s.next_block b.id b.name) (record s {
  next_block = suc s.next_block;
  tools = store k (record b { block_index = s.next_block; started = true }) s.tools;
  tool_order = s.tool_order ++ k ∷ [];
})

opens_tool :
    (s : Stream) (b : Tool) (es : List (ℕ × Kind))
    → is_empty b.id ≡ false
    → is_empty b.name ≡ false
    → accept (tool_start s.next_block b.id b.name) (view_of s false es)
      ≡ some (opened s.next_block tool_block (view_of s false es))
unfolding accept view_of
opens_tool s b es id name = ground (arith, ==_iff s.next_block s.next_block)

opened_tool-Chain :
    (s : Stream) (k : ℤ) (b : Tool) (g : Good true s)
    → s.text_open ≡ false
    → find k s.tools ≡ some b
    → b.started ≡ false
    → Chain
        (opened_tool k b s).tools
        0
        (opened_tool k b s).tool_order
        (g.tools_open ++ (s.next_block, tool_block) ∷ [])
        (suc s.next_block)
unfolding opened_tool write
opened_tool-Chain s k b g no_text found idle =
    let c = record b { block_index = s.next_block; started = true } in
    Chain-snoc (store k c s.tools) 0 s.tool_order g.tools_open s.next_block k
      (Chain-store s.tools k c 0 s.tool_order g.tools_open s.next_block
        (λ d stored begun. let e = sym stored ∙ found in ground (arith, e))
        (Good-Chain s false g no_text))
      (record {
        tool = c;
        found = find-store_same s.tools k c;
        begun = refl;
        open_still = g.unclosed k b found;
        at = refl;
      })

opened_tool-Good :
    (s : Stream) (k : ℤ) (b : Tool)
    → Good true s
    → s.text_open ≡ false
    → find k s.tools ≡ some b
    → b.started ≡ false
    → is_empty b.id ≡ false
    → is_empty b.name ≡ false
    → Good true (opened_tool k b s)
unfolding opened_tool write view_of
opened_tool-Good s k b g no_text found idle id name =
    let es = g.tools_open ++ (s.next_block, tool_block) ∷ [] in
    let c = record b { block_index = s.next_block; started = true } in
    let wrote =
      watch-snoc s.written (tool_start s.next_block b.id b.name) begin
        (view_of s false g.tools_open)
        (opened s.next_block tool_block (view_of s false g.tools_open)) (seen_of s false g no_text)
        (opens_tool s b g.tools_open id name) in
    record {
      tools_open = es;
      seen =
          subst
            (λ x. watch (opened_tool k b s).written begin ≡ some (view_of (opened_tool k b s) x es))
            (sym no_text) wrote;
      chain =
          subst
            (λ x.
              Chain (opened_tool k b s).tools 0 (opened_tool k b s).tool_order es
                (if x then s.text_index else suc s.next_block))
            (sym no_text) (opened_tool-Chain s k b g no_text found idle);
      room = λ h. ground arith;
      known = λ j d stored begun. Among-snoc j k s.tool_order (elim (Bool-cases (same k j)) [
        | inl alike ↦ inl (same→eq k j alike)
        | inr apart_keys ↦ inr (g.known j d (ground (arith, find-store k j c s.tools)) begun)
      ]);
      unclosed = λ j d stored. elim (Bool-cases (same k j)) [
        | inl alike ↦ ground (arith, g.unclosed k b found, find-store k j c s.tools)
        | inr apart_keys ↦ g.unclosed j d (ground (arith, find-store k j c s.tools))
      ];
      begun = g.begun;
      unfinished = g.unfinished;
    }

opened_tool_stored :
    (s : Stream) (k : ℤ) (b : Tool)
    → find k (opened_tool k b s).tools
      ≡ some (record b { block_index = s.next_block; started = true })
unfolding opened_tool write
opened_tool_stored s k b = find-store_same s.tools k _

start_tool-Good :
    (s : Stream) (k : ℤ) (b : Tool)
    → Good true s
    → find k s.tools ≡ some b
    → b.started ≡ false
    → is_empty b.id ≡ false
    → is_empty b.name ≡ false
    → Good true (start_tool k b s)
unfolding start_tool opened_tool
start_tool-Good s k b g found idle id name =
    let t = close_text s in
    let (no_text, same_tools, same_order) = close_text_keeps s in
    let c = record b { block_index = t.next_block; started = true } in
    let h =
      opened_tool-Good t k b (close_text-Good s g) no_text (ap (find k) same_tools ∙ found) idle id
        name in
    let stored : find k (opened_tool k b t).tools ≡ some c = opened_tool_stored t k b in
    let (sent, still) =
      write_deltas-Good b.pending_args (opened_tool k b t) k c h stored (h.known k c stored refl) in
    update-Good (write_deltas t.next_block b.pending_args (opened_tool k b t)) k c
      (record c { pending_args = [] }) _ sent still refl refl refl

-- The state that an outcome leaves behind.
abbrev pub Leaves : Outcome → Type 0
Leaves o = Good true (state_of o)

fill_tool-Good :
    (index : ℤ) (arguments : String) (b : Tool) (s : Stream)
    → Good true s
    → find index s.tools ≡ some b
    → Leaves (fill_tool index arguments b s)
unfolding fill_tool buffer
fill_tool-Good index arguments b s g found =
    if_both Leaves b.started _ _
      (λ running.
        if_both Leaves (is_empty arguments) (ok s) _ (λ h. g)
          (λ sent.
            let c = record b { argument_fragments = b.argument_fragments ++ arguments ∷ [] } in
            write_json-Good (record s { tools = store index c s.tools }) index c arguments
              (update-Good s index b c s.argument_bytes g found refl refl refl)
              (find-store_same s.tools index c) (g.known index b found running)))
      (λ idle.
        let c = buffer arguments b in
        let h = update-Good s index b c s.argument_bytes g found refl refl refl in
        if_both Leaves (is_empty b.id || is_empty b.name) _ _ (λ waits. h)
          (λ named.
            start_tool-Good (record s { tools = store index c s.tools }) index c h
              (find-store_same s.tools index c) idle (ground arith) (ground arith)))

add_to_tool-Good :
    (call : Members) (b : Tool) (s : Stream)
    → ((n : ℕ)
        → Good true (record s {
          tools = store (tool_index call) (name_tool call b) s.tools;
          argument_bytes = n;
        }))
    → Leaves (add_to_tool call b s)
unfolding add_to_tool
add_to_tool-Good call b s kept =
    let arguments = as_text (get "arguments" (function_of call)) in
    let n = s.argument_bytes + len arguments in
    let t = record s {
      tools = store (tool_index call) (name_tool call b) s.tools;
      argument_bytes = n;
    } in
    if_both Leaves (ltb max_tool_argument_bytes n)
      (failed "OpenAI adapter: tool arguments exceed limit" t)
      (fill_tool (tool_index call) arguments (name_tool call b) t) (λ over. kept n)
      (λ within.
        fill_tool-Good (tool_index call) arguments (name_tool call b) t (kept n)
          (find-store_same s.tools (tool_index call) (name_tool call b)))

process_call_at :
    (call : Members) (s : Stream) (o : Option Tool)
    → find (tool_index call) s.tools ≡ o
    → Good true s
    → Leaves (elim o [
      | some b ↦ add_to_tool call b s
      | none ↦
          if leb max_tool_calls (length s.tools)
          then failed "OpenAI adapter: too many tool calls" s
          else add_to_tool call new_tool s
    ])
unfolding name_tool
process_call_at call s (some b) found g =
    add_to_tool-Good call b s
      (λ n. update-Good s (tool_index call) b (name_tool call b) n g found refl refl refl)
process_call_at call s none missing g =
    if_both Leaves (leb max_tool_calls (length s.tools)) _ _ (λ full. g)
      (λ fits. add_to_tool-Good call new_tool s (λ n.
        store-Good s (tool_index call) (name_tool call new_tool) n g
          (λ c found begun. ground (arith, missing, found)) (λ begun. ground arith) refl))

process_call-Good : (call : Members) (s : Stream) → Good true s → Leaves (process_call call s)
unfolding process_call
process_call-Good call s g = process_call_at call s (find (tool_index call) s.tools) refl g

process_tool_call-Good : (raw : Value) (s : Stream) → Good true s → Leaves (process_tool_call raw s)
unfolding process_tool_call
process_tool_call-Good (Value.object call) s g = process_call-Good call s g
process_tool_call-Good _ s g = g

pub and_then-Leaves :
    (o : Outcome) (f : Stream → Outcome)
    → Leaves o
    → ((s : Stream) → Good true s → Leaves (f s))
    → Leaves (and_then o f)
and_then-Leaves (ok s) f g next = next s g
and_then-Leaves (failed message s) f g next = g

pub process_tool_calls-Good :
    (xs : Elements) (s : Stream) → Good true s → Leaves (process_tool_calls xs s)
unfolding process_tool_calls
process_tool_calls-Good no_elements s g = g
process_tool_calls-Good (element x xs) s g =
    and_then-Leaves (process_tool_call x s) (process_tool_calls xs) (process_tool_call-Good x s g)
      (process_tool_calls-Good xs)
