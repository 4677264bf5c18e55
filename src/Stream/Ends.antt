-- ===== src/Stream/Ends.antt =====
-- The end of a translated message: `finishOpenAIMessageChecked` closes what is open.
use claude_gateway.Prelude.{
  All, ℕ, suc, String, Bool, true, false, Option, none, some, List, [], ◌∷◌, ◌++◌, ◌≡◌, refl, sym,
  ap, subst, ◌∙◌, if◌then◌else◌, Bool-cases, if_both, option_split, ◌⊎◌, not, ◌&&◌, inl, inr, arith,
  ==_iff,
}
use claude_gateway.Json.{ℤ, same, Decoded}
use claude_gateway.Stream.{
  block_stop, error_event, message_delta, message_stop, Stream, write, is_empty, close_text,
}
use claude_gateway.Stream.Faults.{IsSound, SomeFaulty, fault-IsSound, fault-SomeFaulty}
use claude_gateway.Stream.Blocks.{Tool, Tools, find, store}
use claude_gateway.Stream.Chunks.{
  close_tool, close_tools, finish_message, fault, when_positive, bad_arguments, incomplete,
}
use claude_gateway.Stream.Monitor.{
  Kind, Phase, streaming, ending, stopped, broken, Monitor, begin, accept, watch, watch-snoc,
}
use claude_gateway.Stream.Chains.{Holds, Chain, Chain-store-below}
use claude_gateway.Stream.Calls.{close_text_keeps}
use claude_gateway.Stream.Steps.{
  Good, view, phase_of, view_of, Good-Chain, seen_of, close_text-Good,
}

-- The monitor accepts what was written, and ends in a phase with the property `P`.
abbrev pub Reaches : (Phase → Type 0) → Stream → Type 0
Reaches P s = (m : Monitor) × (watch s.written begin ≡ some m) × P m.phase

abbrev streaming_at : ℕ → List (ℕ × Kind) → Monitor
streaming_at n es = record { phase = streaming; next = n; live = es }

close_tool-Holds :
    (k : ℤ) (i : ℕ) (s : Stream) (h : Holds s.tools k i)
    → close_tool k s
      ≡ write
          (block_stop i)
          (record s { tools = store k (record h.tool { closed = true }) s.tools })
unfolding close_tool
close_tool-Holds k i s h = ground (arith, h.found, h.begun, h.open_still, h.at)

close_tools_ends :
    (ks : List ℤ) (es : List (ℕ × Kind)) (s : Stream) (n lo hi : ℕ)
    → watch s.written begin ≡ some (streaming_at n es)
    → Chain s.tools lo ks es hi
    → watch (close_tools ks s).written begin ≡ some (streaming_at n [])
unfolding close_tools write accept
close_tools_ends [] [] s n lo hi seen c = seen
close_tools_ends [] (e ∷ es) s n lo hi seen c = elim c [ ]
close_tools_ends (k ∷ ks) [] s n lo hi seen c = elim c [ ]
close_tools_ends (k ∷ ks) (e ∷ es) s n lo hi seen (h, kind, low, rest) =
    let closed = record h.tool { closed = true } in
    let t = write (block_stop e.0) (record s { tools = store k closed s.tools }) in
    subst (λ x. watch (close_tools ks x).written begin ≡ some (streaming_at n []))
      (sym (close_tool-Holds k e.0 s h))
      (close_tools_ends ks es t n (suc e.0) hi
        (watch-snoc s.written (block_stop e.0) begin (streaming_at n (e ∷ es)) (streaming_at n es)
          seen (ground (arith, kind, ==_iff e.0 e.0)))
        (Chain-store-below s.tools k closed h.tool (suc e.0) ks es hi h.found (ground (arith, h.at))
          rest))

if_finished :
    (b : Bool) (x y : Stream)
    → (if b then record x { terminated = true } else record y { terminated = true })
      ≡ record (if b then x else y) { terminated = true }
if_finished true x y = refl
if_finished false x y = refl

close_text_finished :
    (s : Stream)
    → close_text (record s { terminated = true }) ≡ record (close_text s) { terminated = true }
unfolding close_text write
close_text_finished s =
    if_finished s.text_open (record (write (block_stop s.text_index) s) { text_open = false }) s

-- After the text and the tools are closed the monitor has no open block.
closed_all :
    (s : Stream) (g : Good true s)
    → (n : ℕ) × (watch
          (close_tools s.tool_order (close_text (record s { terminated = true }))).written
          begin
        ≡ some (streaming_at n []))
unfolding view_of
closed_all s g =
    let t = close_text s in
    let h = close_text-Good s g in
    let (no_text, same_tools, same_order) = close_text_keeps s in
    let ended =
      close_tools_ends t.tool_order h.tools_open (record t { terminated = true }) t.next_block 0
        t.next_block (seen_of t false h no_text) (Good-Chain t false h no_text) in
    (
      t.next_block,
      subst
          (λ x.
            watch (close_tools s.tool_order x).written begin ≡ some (streaming_at t.next_block []))
          (sym (close_text_finished s))
          (subst
            (λ o.
              watch (close_tools o (record t { terminated = true })).written begin
              ≡ some (streaming_at t.next_block []))
            same_order ended),
    )

pub Reaches-error :
    (started : Bool) (message : String) (s : Stream) (m : Monitor)
    → watch s.written begin ≡ some m
    → m.phase ≡ phase_of started
    → Reaches (λ p. p ≡ broken) (write (error_event message) s)
unfolding write accept
Reaches-error started message s m seen at = (
  record m { phase = broken },
  watch-snoc s.written (error_event message) begin m (record m { phase = broken }) seen
      (elim (Bool-cases started) [
        | inl yes_started ↦ ground arith
        | inr not_started ↦ ground arith
      ]),
  refl,
)

ends :
    (s : Stream) (n : ℕ) (reason : String) (input output : ℤ) (cached : Option ℤ)
    → is_empty reason ≡ false
    → watch s.written begin ≡ some (streaming_at n [])
    → Reaches
        (λ p. p ≡ stopped)
        (write message_stop (write (message_delta reason input output cached) s))
unfolding write accept
ends s n reason input output cached r seen =
    let m : Monitor = record { phase = ending; next = n; live = [] } in
    let o : Monitor = record { phase = stopped; next = n; live = [] } in
    let e = message_delta reason input output cached in
    (
      o,
      watch-snoc (s.written ++ e ∷ []) message_stop begin m o
          (watch-snoc s.written e begin (streaming_at n []) m seen (ground arith)) refl,
      refl,
    )

-- What `finishOpenAIMessageChecked` leaves: an error where it finds a fault of the tools, and a
-- complete message where it finds none.
abbrev Concluded : (String → Decoded) → (List String → String) → Stream → Type 0
Concluded decode trimmed s =
    ((message : String) × (fault decode trimmed s.tools ≡ some message)
      × Reaches (λ p. p ≡ broken) s)
    ⊎ ((fault decode trimmed s.tools ≡ none) × Reaches (λ p. p ≡ stopped) s)

-- The same, without its test: an error where some tool is not sound, and a complete message where
-- they all are.
abbrev pub Finished : (String → Decoded) → (List String → String) → Stream → Type 0
Finished decode trimmed s =
    (SomeFaulty decode trimmed s.tools × Reaches (λ p. p ≡ broken) s)
    ⊎ (All (λ e. IsSound decode trimmed e.1) s.tools × Reaches (λ p. p ≡ stopped) s)

-- A block that is closed has the fault that it had, or none.
fault-store :
    (decode : String → Decoded) (trimmed : List String → String) (k : ℤ) (b : Tool) (m : Tools)
    → find k m ≡ some b
    → fault decode trimmed (store k (record b { closed = true }) m) ≡ fault decode trimmed m
unfolding fault bad_arguments incomplete
fault-store decode trimmed k b [] found = ground arith
fault-store decode trimmed k b ((j, c) ∷ m) found = elim (Bool-cases (same j k)) [
  | inl here ↦
      let mine : b ≡ c = ground (arith, here, found) in
      let front : store k (record b { closed = true }) ((j, c) ∷ m)
          ≡ (k, record b { closed = true }) ∷ m =
        (ap
          (λ t.
            if t
            then (k, record b { closed = true }) ∷ m
            else (j, c) ∷ store k (record b { closed = true }) m)
          here) in
      ap (fault decode trimmed) front ∙ ap (λ (x : Tool). fault decode trimmed ((j, x) ∷ m)) mine
  | inr other ↦
      let back : store k (record b { closed = true }) ((j, c) ∷ m)
          ≡ (j, c) ∷ store k (record b { closed = true }) m =
        (ap
          (λ t.
            if t
            then (k, record b { closed = true }) ∷ m
            else (j, c) ∷ store k (record b { closed = true }) m)
          other) in
      ap (fault decode trimmed) back
      ∙ ap
          (λ rest.
            if bad_arguments decode trimmed c
            then some "OpenAI adapter: malformed tool call arguments"
            else if incomplete c
            then some "OpenAI adapter: incomplete tool call"
            else rest)
          (fault-store decode trimmed k b m (ground (arith, other, found)))
]

fault-close_tool :
    (decode : String → Decoded) (trimmed : List String → String) (k : ℤ) (s : Stream)
    → fault decode trimmed (close_tool k s).tools ≡ fault decode trimmed s.tools
unfolding close_tool write
fault-close_tool decode trimmed k s =
    option_split (λ t. fault decode trimmed t.tools ≡ fault decode trimmed s.tools) (find k s.tools)
      s _ (λ missing. refl)
      (λ b found.
        if_both (λ t. fault decode trimmed t.tools ≡ fault decode trimmed s.tools)
          (b.started && not b.closed) _ s (λ h. fault-store decode trimmed k b s.tools found)
          (λ h. refl))

fault-close_tools :
    (decode : String → Decoded) (trimmed : List String → String) (ks : List ℤ) (s : Stream)
    → fault decode trimmed (close_tools ks s).tools ≡ fault decode trimmed s.tools
unfolding close_tools
fault-close_tools decode trimmed [] s = refl
fault-close_tools decode trimmed (k ∷ ks) s =
    fault-close_tools decode trimmed ks (close_tool k s) ∙ fault-close_tool decode trimmed k s

verdict-Concluded :
    (decode : String → Decoded) (trimmed : List String → String) (s : Stream) (reason : String)
    (verdict : Option String) (g : Good true s)
    → fault decode trimmed s.tools ≡ verdict
    → is_empty reason ≡ false
    → Concluded decode trimmed (elim verdict [
      | some message ↦
          write (error_event message) (record s { protocol_error = true; terminated = true })
      | none ↦
          let closed = close_tools s.tool_order (close_text (record s { terminated = true })) in
          write message_stop (
            write
              (message_delta reason closed.input_tokens closed.output_tokens
                (when_positive closed.cache_read_tokens))
              closed)
    ])
unfolding write
verdict-Concluded decode trimmed s reason (some message) g faulty r = inl (
  message,
  faulty,
  Reaches-error true message (record s { protocol_error = true; terminated = true })
      (view true s g.tools_open) g.seen refl,
)
verdict-Concluded decode trimmed s reason none g sound r =
    let start = record s { terminated = true } in
    let closed = close_tools s.tool_order (close_text start) in
    let (n, seen) = closed_all s g in
    inr (
      fault-close_tools decode trimmed s.tool_order (close_text start)
          ∙ ap (fault decode trimmed) (close_text_keeps start).1
          ∙ sound,
      ends closed n reason closed.input_tokens closed.output_tokens
          (when_positive closed.cache_read_tokens) r seen,
    )

finish_message-Concluded :
    (decode : String → Decoded) (trimmed : List String → String) (reason : String) (s : Stream)
    → is_empty reason ≡ false
    → Good true s
    → Concluded decode trimmed (finish_message decode trimmed reason s)
unfolding finish_message
finish_message-Concluded decode trimmed reason s r g =
    if_both (Concluded decode trimmed) s.terminated _ _ (λ over. ground (arith, g.unfinished))
      (λ running. verdict-Concluded decode trimmed s reason (fault decode trimmed s.tools) g refl r)

pub finish_message-Finished :
    (decode : String → Decoded) (trimmed : List String → String) (reason : String) (s : Stream)
    → is_empty reason ≡ false
    → Good true s
    → Finished decode trimmed (finish_message decode trimmed reason s)
finish_message-Finished decode trimmed reason s r g =
    let t = finish_message decode trimmed reason s in
    elim (finish_message-Concluded decode trimmed reason s r g) [
      | inl (message, faulty, reached) ↦
          inl (fault-SomeFaulty decode trimmed t.tools message faulty, reached)
      | inr (sound, reached) ↦ inr (fault-IsSound decode trimmed t.tools sound, reached)
    ]
