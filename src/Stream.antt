-- ===== src/Stream.antt =====
-- The translation of an OpenAI chunk stream into Anthropic events, of anthropic-proxy.go:
-- `translateOpenAIStreamWithStats`, `processOpenAIChunk`, `processOpenAIToolCallChunk` and
-- `finishOpenAIMessageChecked`. The writer is the list of the events written: a write that fails
-- ends the translation, so that what was written then is a beginning of that list. The lines come
-- from `readBoundedSSELine`, and the JSON decoder is a parameter.
pub mod Blocks
pub mod Chunks
pub mod Monitor
pub mod Chains
pub mod Lines
pub mod Steps
pub mod Calls
pub mod Faults
pub mod Ends
pub mod Trace
pub mod Texts
pub mod Limits
use Prim.Native.String.{◌++◌ as join, len}
use claude_gateway.Prelude.{
  ℕ, ◌+◌, suc, String, Bool, true, false, not, ◌&&◌, ◌||◌, Option, none, some, List, [], ◌∷◌, ◌++◌,
  ltb, leb, length, str_eq, starts_with, if◌then◌else◌,
}
use claude_gateway.Json.{ℤ, pos}
use claude_gateway.Stream.Blocks.{Tool, Tools}

pub data Event : Type 0 where
  message_start : (id model : String) → (input_tokens : ℤ) → Event
  text_start : (index : ℕ) → Event
  tool_start : (index : ℕ) → (id name : String) → Event
  text_delta : (index : ℕ) → (content : String) → Event
  json_delta : (index : ℕ) → (partial : String) → Event
  block_stop : (index : ℕ) → Event
  message_delta : (stop_reason : String) → (input output : ℤ) → (cache_read : Option ℤ) → Event
  message_stop : Event
  error_event : (message : String) → Event

-- `text_index` is read only while `text_open`, so that its first value does not matter.
pub record Stream : Type 0 where
  pub argument_bytes : ℕ
  pub alias : String
  pub started : Bool
  pub terminated : Bool
  pub text_open : Bool
  pub text_index : ℕ
  pub next_block : ℕ
  pub tools : Tools
  pub tool_order : List ℤ
  pub pending_stop_reason : String
  pub protocol_error : Bool
  pub input_tokens : ℤ
  pub output_tokens : ℤ
  pub cache_read_tokens : ℤ
  pub written : List Event

abbrev pub new_stream : String → Stream
new_stream model = record {
  argument_bytes = 0;
  alias = model;
  started = false;
  terminated = false;
  text_open = false;
  text_index = 0;
  next_block = 0;
  tools = [];
  tool_order = [];
  pending_stop_reason = "";
  protocol_error = false;
  input_tokens = pos 0;
  output_tokens = pos 0;
  cache_read_tokens = pos 0;
  written = [];
}

-- A call that returns nil, or an error; the state is shared, so both keep it.
pub data Outcome : Type 0 where
  ok : Stream → Outcome
  failed : (message : String) → Stream → Outcome

abbrev pub and_then : Outcome → (Stream → Outcome) → Outcome
and_then (ok s) f = f s
and_then (failed message s) f = failed message s

abbrev pub state_of : Outcome → Stream
state_of (ok s) = s
state_of (failed message s) = s

unfoldable pub write : Event → Stream → Stream
write e s = record s { written = s.written ++ e ∷ [] }

abbrev pub is_empty : String → Bool
is_empty s = str_eq s ""

unfoldable pub close_text : Stream → Stream
unfolding write
close_text s =
    if s.text_open then record (write (block_stop s.text_index) s) { text_open = false } else s
