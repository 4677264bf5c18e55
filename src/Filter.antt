-- ===== src/Filter.antt =====
-- The filter of Anthropic event streams, of anthropic-proxy.go: what stands in a frame, the state
-- `sseFilterState`, and what is written to the client. A frame's lines come from
-- `readBoundedSSELine` and are told apart by their field; the JSON decoder is a parameter.
pub mod Payload
pub mod Frame
pub mod Loop
pub mod Kinds
pub mod Passed
pub mod Monitor
pub mod Order
pub mod Numbers
pub mod Allotted
pub mod Renumbered
use claude_gateway.Prelude.{
  ℕ, String, Bool, true, false, Option, none, some, List, [], ◌∷◌, ◌++◌, str_eq, if◌then◌else◌,
}
use claude_gateway.Json.{ℤ, Members, same}

-- What a line that is not blank holds: `event:` or `data:` with their trimmed text, a comment, or
-- another field.
pub data Field : Type 0 where
  event_name : (name : String) → Field
  event_data : (content : String) → Field
  comment : Field
  unsupported : Field

-- `raw` is the whole line without its line break.
pub record Line : Type 0 where
  pub raw : String
  pub holds : Field

pub data Kind : Type 0 where
  message_start content_block_start content_block_delta content_block_stop : Kind
  message_delta message_stop ping error : Kind

-- `anthropicSSEEventTypes`
unfoldable pub kind_of : String → Option Kind
kind_of name =
    if str_eq name "message_start"
    then some message_start
    else if str_eq name "content_block_start"
    then some content_block_start
    else if str_eq name "content_block_delta"
    then some content_block_delta
    else if str_eq name "content_block_stop"
    then some content_block_stop
    else if str_eq name "message_delta"
    then some message_delta
    else if str_eq name "message_stop"
    then some message_stop
    else if str_eq name "ping"
    then some ping
    else if str_eq name "error"
    then some error
    else none

-- `sseFilterState`. `drop` is the set of the dropped indexes.
pub record FilterState : Type 0 where
  pub drop : List ℤ
  pub remap : List (ℤ × ℕ)
  pub next : ℕ

abbrev pub new_filter : FilterState
new_filter = record { drop = []; remap = []; next = 0 }

abbrev pub dropped : ℤ → List ℤ → Bool
dropped i [] = false
dropped i (j ∷ js) = if same j i then true else dropped i js

abbrev pub mapped : ℤ → List (ℤ × ℕ) → Option ℕ
mapped i [] = none
mapped i ((j, n) ∷ m) = if same j i then some n else mapped i m

-- What goes to the client: a blank line that keeps the connection alive, a frame as it came, an
-- event that is written anew, a frame whose data is no JSON, or an error of the filter's own.
pub data Output : Type 0 where
  keep_alive : Output
  verbatim : List Line → Output
  event : (name : String) → Members → Output
  marker : (name content : String) → Output
  failure : (message : String) → Output
