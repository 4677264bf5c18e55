-- ===== src/Stream/Steps.antt =====
-- What holds of a stream between two steps of the translation, and that the text steps keep it.
use claude_gateway.Prelude.{
  ℕ, suc, ◌<◌, String, Bool, true, false, some, List, [], ◌∷◌, ◌++◌, ◌≡◌, refl, subst,
  if◌then◌else◌, Bool-cases, inl, inr, arith, ==_iff,
}
use claude_gateway.Json.{ℤ}
use claude_gateway.Stream.{
  Event, text_start, text_delta, block_stop, Stream, write, is_empty, close_text,
}
use claude_gateway.Stream.Blocks.{Tool, find}
use claude_gateway.Stream.Chunks.{open_text, text_content}
use claude_gateway.Stream.Monitor.{
  Kind, text_block, Phase, idle, streaming, Monitor, begin, accept, watch, watch-snoc, opened,
}
use claude_gateway.Stream.Chains.{Chain, Chain-wider, kind_at-last, shut-last, Among}

abbrev pub phase_of : Bool → Phase
phase_of started = if started then streaming else idle

-- The number above every block of a tool.
abbrev pub limit : Stream → ℕ
limit s = if s.text_open then s.text_index else s.next_block

-- The monitor after the events of `s`, where `es` are the open blocks of tools.
abbrev pub view : Bool → Stream → List (ℕ × Kind) → Monitor
view started s es = record {
  phase = phase_of started;
  next = s.next_block;
  live = if s.text_open then es ++ (s.text_index, text_block) ∷ [] else es;
}

pub record Good (started : Bool) (s : Stream) : Type 0 where
  pub tools_open : List (ℕ × Kind)
  pub seen : watch s.written begin ≡ some (view started s tools_open)
  pub chain : Chain s.tools 0 s.tool_order tools_open (limit s)
  pub room : s.text_open ≡ true → s.text_index < s.next_block
  pub known : (k : ℤ) (b : Tool) → find k s.tools ≡ some b → b.started ≡ true → Among k s.tool_order
  pub unclosed : (k : ℤ) (b : Tool) → find k s.tools ≡ some b → b.closed ≡ false
  pub begun : s.started ≡ started
  pub unfinished : (s.terminated ≡ false) × (s.protocol_error ≡ false)

-- The chain and the monitor once it is known whether a text is open.
pub Good-Chain :
    (s : Stream) (b : Bool) (g : Good true s)
    → s.text_open ≡ b
    → Chain s.tools 0 s.tool_order g.tools_open (if b then s.text_index else s.next_block)
Good-Chain s b g e =
    subst
      (λ x. Chain s.tools 0 s.tool_order g.tools_open (if x then s.text_index else s.next_block)) e
      g.chain

unfoldable pub view_of : (s : Stream) (b : Bool) → List (ℕ × Kind) → Monitor
view_of s b es = record {
  phase = streaming;
  next = s.next_block;
  live = if b then es ++ (s.text_index, text_block) ∷ [] else es;
}

pub seen_of :
    (s : Stream) (b : Bool) (g : Good true s)
    → s.text_open ≡ b
    → watch s.written begin ≡ some (view_of s b g.tools_open)
unfolding view_of
seen_of s b g e = subst (λ x. watch s.written begin ≡ some (view_of s x g.tools_open)) e g.seen

closes :
    (s : Stream) (es : List (ℕ × Kind))
    → Chain s.tools 0 s.tool_order es s.text_index
    → accept (block_stop s.text_index) (view_of s true es) ≡ some (view_of s false es)
unfolding accept view_of
closes s es c = ground (
  arith,
  kind_at-last s.tools 0 s.tool_order es s.text_index text_block c,
  shut-last s.tools 0 s.tool_order es s.text_index text_block c,
)

close_text_if :
    (s : Stream) (b : Bool)
    → s.text_open ≡ b
    → Good true s
    → Good true (if b then record (write (block_stop s.text_index) s) { text_open = false } else s)
unfolding write view_of
close_text_if s false e g = g
close_text_if s true e g = record {
  tools_open = g.tools_open;
  seen =
      watch-snoc s.written (block_stop s.text_index) begin (view_of s true g.tools_open)
        (view_of s false g.tools_open) (seen_of s true g e)
        (closes s g.tools_open (Good-Chain s true g e));
  chain =
      Chain-wider s.tools 0 s.tool_order g.tools_open s.text_index s.next_block
        (omega (arith, g.room e)) (Good-Chain s true g e);
  room = λ h. ground arith;
  known = g.known;
  unclosed = g.unclosed;
  begun = g.begun;
  unfinished = g.unfinished;
}

pub close_text-Good : (s : Stream) → Good true s → Good true (close_text s)
unfolding close_text
close_text-Good s g = close_text_if s s.text_open refl g

opens_text :
    (s : Stream) (es : List (ℕ × Kind))
    → accept (text_start s.next_block) (view_of s false es)
      ≡ some (opened s.next_block text_block (view_of s false es))
unfolding accept view_of
opens_text s es = ground (arith, ==_iff s.next_block s.next_block)

opened_text : Stream → Stream
unfolding write
opened_text s =
    write (text_start s.next_block)
      (record s { text_open = true; text_index = s.next_block; next_block = suc s.next_block })

opened_text-Good : (s : Stream) → s.text_open ≡ false → Good true s → Good true (opened_text s)
unfolding write view_of opened_text
opened_text-Good s e g = record {
  tools_open = g.tools_open;
  seen =
      watch-snoc s.written (text_start s.next_block) begin (view_of s false g.tools_open)
        (opened s.next_block text_block (view_of s false g.tools_open)) (seen_of s false g e)
        (opens_text s g.tools_open);
  chain = Good-Chain s false g e;
  room = λ h. omega arith;
  known = g.known;
  unclosed = g.unclosed;
  begun = g.begun;
  unfinished = g.unfinished;
}

open_text_if :
    (s : Stream) (b : Bool)
    → s.text_open ≡ b
    → Good true s
    → Good true (if b then s else opened_text s)
      × ((if b then s else opened_text s).text_open ≡ true)
unfolding write opened_text
open_text_if s true e g = (g, e)
open_text_if s false e g = (opened_text-Good s e g, refl)

open_text-Good :
    (s : Stream) → Good true s → Good true (open_text s) × ((open_text s).text_open ≡ true)
unfolding open_text opened_text
open_text-Good s g = open_text_if s s.text_open refl g

-- A delta of the open text, or of an open tool: the monitor stays as it was.
pub write_same :
    (s : Stream) (e : Event) (g : Good true s)
    → accept e (view true s g.tools_open) ≡ some (view true s g.tools_open)
    → Good true (write e s)
unfolding write
write_same s e g same = record {
  tools_open = g.tools_open;
  seen =
      watch-snoc s.written e begin (view true s g.tools_open) (view true s g.tools_open) g.seen
        same;
  chain = g.chain;
  room = g.room;
  known = g.known;
  unclosed = g.unclosed;
  begun = g.begun;
  unfinished = g.unfinished;
}

write_text-Good :
    (s : Stream) (content : String)
    → s.text_open ≡ true
    → is_empty content ≡ false
    → Good true s
    → Good true (write (text_delta s.text_index content) s)
unfolding accept view_of
write_text-Good s content e some_text g = write_same s (text_delta s.text_index content) g (
    ground (
      arith,
      e,
      kind_at-last s.tools 0 s.tool_order g.tools_open s.text_index text_block
          (Good-Chain s true g e),
    ))

pub text_content-Good :
    (content : String) (s : Stream) → Good true s → Good true (text_content content s)
unfolding text_content
text_content-Good content s g = elim (Bool-cases (is_empty content)) [
  | inl none_sent ↦ rw none_sent g
  | inr sent ↦
      let (h, now_open) = open_text-Good s g in
      rw sent (write_text-Good (open_text s) content now_open sent h)
]
