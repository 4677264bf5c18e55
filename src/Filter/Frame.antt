-- ===== src/Filter/Frame.antt =====
-- One frame of the stream, of anthropic-proxy.go: `validateAnthropicSSEEvent` and
-- `filterSSEEvent`. What they record of usage is left out.
use claude_gateway.Prelude.{
  ℕ, String, Bool, true, false, not, ◌&&◌, Option, none, some, List, [], ◌∷◌, str_eq, if◌then◌else◌,
}
use claude_gateway.Json.{
  Members, no_members, Decoded, malformed, nil, decoded, get, as_text, as_members,
}
use claude_gateway.Stream.{is_empty}
use claude_gateway.Stream.Lines.{join_lines}
use claude_gateway.Filter.{
  Line, event_name, event_data, unsupported, Kind, message_start, ping, error, kind_of, FilterState,
  Output, verbatim, event, marker,
}
use claude_gateway.Filter.Payload.{add_usage_hint, set_response_alias, should_drop}

-- The last `event:` of a frame, and its data lines.
unfoldable pub name_of : String → List Line → String
name_of name [] = name
name_of name (l ∷ ls) = name_of (elim l.holds [ event_name other ↦ other | _ ↦ name ]) ls

unfoldable pub data_of : List Line → List String
data_of [] = []
data_of (l ∷ ls) = elim l.holds [ event_data content ↦ content ∷ data_of ls | _ ↦ data_of ls ]

unfoldable pub any_unsupported : List Line → Bool
any_unsupported [] = false
any_unsupported (l ∷ ls) = elim l.holds [ unsupported ↦ true | _ ↦ any_unsupported ls ]

pub data Verdict : Type 0 where
  no_event : Verdict
  valid : Kind → Verdict
  invalid : (reason : String) → Verdict

-- The order rules: `started` after a message_start, `ended` after message_stop or an error.
abbrev pub unless_ended : Bool → Verdict → Verdict
unless_ended ended v = if ended then invalid "event follows terminal event" else v

unfoldable pub check_order : Kind → Bool → Bool → Verdict
check_order ping started ended = valid ping
check_order error started ended = unless_ended ended (valid error)
check_order message_start started ended =
    unless_ended ended (if started then invalid "duplicate message_start" else valid message_start)
check_order kind started ended =
    unless_ended ended (if started then valid kind else invalid "event precedes message_start")

unfoldable pub check_payload : String → Members → Bool → Bool → Verdict
check_payload name payload started ended =
    let kind = as_text (get "type" payload) in
    if is_empty kind
    then invalid "event payload has no type"
    else if not (is_empty name) && not (str_eq name kind)
    then invalid "event type disagrees with payload type"
    else elim (kind_of kind) [
      | none ↦ invalid "unknown event type"
      | some k ↦ check_order k started ended
    ]

module _ (decode : String → Decoded) where
  unfoldable pub check_data : String → String → Bool → Bool → Verdict
  check_data name content started ended =
      if str_eq content "[DONE]"
      then invalid "OpenAI [DONE] marker on Anthropic stream"
      else elim (decode content) [
        | malformed ↦ invalid "invalid JSON data"
        | nil ↦ invalid "event payload has no type"
        | decoded payload ↦ check_payload name payload started ended
      ]

  unfoldable pub validate : List Line → Bool → Bool → Verdict
  validate lines started ended =
      if any_unsupported lines then invalid "unsupported SSE field" else elim (data_of lines) [
        | [] ↦ if is_empty (name_of "" lines) then no_event else invalid "event has no data"
        | first ∷ rest ↦ check_data (name_of "" lines) (join_lines (first ∷ rest)) started ended
      ]

pub record Filtered : Type 0 where
  pub output : Option Output
  pub name : String
  pub stop_reason : String
  pub state : FilterState

abbrev pub named : String → Members → String
named name payload = if is_empty name then as_text (get "type" payload) else name

module _ (decode : String → Decoded) (digest : String → String) (drop_type : String → Bool)
    (hint : ℕ) (alias : String) where
  unfoldable pub filter_payload : String → Members → FilterState → Filtered
  filter_payload name payload st =
      let (written, st', drop) =
        should_drop digest drop_type (set_response_alias alias (add_usage_hint hint payload)) st in
      record {
        output = if drop then none else some (event name written);
        name = name;
        stop_reason =
            if str_eq name "message_delta"
            then as_text (get "stop_reason" (as_members (get "delta" payload)))
            else "";
        state = st';
      }

  abbrev pub kept_frame : List Line → String → FilterState → Filtered
  kept_frame lines name st = record {
    output = some (verbatim lines);
    name = name;
    stop_reason = "";
    state = st;
  }

  unfoldable pub filter_data : List Line → String → String → FilterState → Filtered
  filter_data lines name content st =
      if str_eq content "[DONE]"
      then record { output = some (marker name content); name = name; stop_reason = ""; state = st }
      else elim (decode content) [
        | malformed ↦ kept_frame lines name st
        | nil ↦ filter_payload (named name no_members) no_members st
        | decoded payload ↦ filter_payload (named name payload) payload st
      ]

  unfoldable pub filter_event : List Line → FilterState → Filtered
  filter_event lines st = elim (data_of lines) [
    | [] ↦ kept_frame lines (name_of "" lines) st
    | first ∷ rest ↦ filter_data lines (name_of "" lines) (join_lines (first ∷ rest)) st
  ]
