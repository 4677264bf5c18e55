-- ===== src/Filter/Loop.antt =====
-- The loop of `filterSSE` of anthropic-proxy.go over the lines it reads, and what it writes at the
-- end. A line that `readBoundedSSELine` refuses, and an upstream that breaks off, is the end
-- `interrupted`. Statistics and the watchdog are left out; `trimmed` is `strings.TrimSpace`.
use Prim.Native.String.{◌++◌ as join}
use claude_gateway.Prelude.{
  ℕ, String, Bool, true, false, not, ◌&&◌, ◌||◌, Option, none, some, List, [], ◌∷◌, ◌++◌, map,
  str_eq, if◌then◌else◌,
}
use claude_gateway.Json.{Decoded}
use claude_gateway.Stream.{is_empty}
use claude_gateway.Stream.Lines.{End, eof, interrupted, join_lines}
use claude_gateway.Filter.{
  Line, Kind, message_start, message_delta, message_stop, error, kind_of, FilterState, new_filter,
  Output, keep_alive, failure,
}
use claude_gateway.Filter.Frame.{Verdict, no_event, valid, invalid, validate, filter_event}

pub record Progress : Type 0 where
  pub started : Bool
  pub ended : Bool
  pub reasoned : Bool
  pub stopped : Bool
  pub filter : FilterState
  pub written : List Output

abbrev pub new_progress : Progress
new_progress = record {
  started = false;
  ended = false;
  reasoned = false;
  stopped = false;
  filter = new_filter;
  written = [];
}

pub data Outcome : Type 0 where
  ok : Progress → Outcome
  failed : (message : String) → Progress → Outcome

abbrev pub send : Output → Progress → Progress
send o s = record s { written = s.written ++ o ∷ [] }

abbrev pub send_some : Option Output → Progress → Progress
send_some none s = s
send_some (some o) s = send o s

-- `none` is the blank line that ends a frame.
abbrev pub Input : Type 0
Input = List (Option Line)

unfoldable pub flags : Option Kind → String → Progress → Progress
flags (some message_start) reason s = record s { started = true }
flags (some message_delta) reason s = if is_empty reason then s else record s { reasoned = true }
flags (some message_stop) reason s = record s { ended = true; stopped = true }
flags (some error) reason s = record s { ended = true }
flags _ reason s = s

-- A message_stop without a stop reason is replaced by an error.
unfoldable pub replaced : Option Kind → Option Output → Progress → Option Output
replaced (some message_stop) out s =
    if s.started && not s.reasoned
    then some (failure "upstream stream ended without stop_reason (truncated response)")
    else out
replaced _ out s = out

unfoldable pub note : Option Kind → String → Option Output → Progress → Progress
note kind reason out s = send_some (replaced kind out s) (flags kind reason s)

-- The event's name, or else the one that the validation found.
abbrev pub event_kind : String → Verdict → Option Kind
event_kind name verdict =
    if is_empty name then elim verdict [ valid k ↦ some k | _ ↦ none ] else kind_of name

-- The end of a stream that has begun a message and not ended it.
unfoldable pub close_open : String → Progress → Progress
close_open message s = if s.started && not s.ended then send (failure message) s else s

unfoldable pub conclude : End → Progress → Outcome
conclude eof s = ok (close_open "upstream stream ended before message_stop" s)
conclude (interrupted message) s =
    failed message (close_open (join "upstream stream interrupted: " message) s)

module _ (decode : String → Decoded) (digest : String → String) (drop_type : String → Bool)
    (hint : ℕ) (alias : String) (trimmed : String → String) where
  -- The end marker of OpenAI after a complete message.
  unfoldable pub trailing_marker : List Line → Progress → Bool
  trailing_marker lines s =
      let frame = trimmed (join_lines (map (λ l. l.raw) lines)) in
      s.stopped
      && s.reasoned
      && (str_eq frame "data: [DONE]" || str_eq frame "event: data\ndata: [DONE]")

  unfoldable pub pass : Verdict → List Line → Progress → Progress
  pass verdict lines s =
      let f = filter_event decode digest drop_type hint alias lines s.filter in
      note (event_kind f.name verdict) f.stop_reason f.output (record s { filter = f.state })

  unfoldable pub judge : Verdict → List Line → Progress → Outcome
  judge (invalid reason) lines s =
      failed (join "malformed Anthropic SSE: " reason)
        (send (failure (join "malformed upstream Anthropic SSE: " reason)) s)
  judge no_event lines s = ok (pass no_event lines s)
  judge (valid k) lines s = ok (pass (valid k) lines s)

  unfoldable pub flush : List Line → Progress → Outcome
  flush lines s =
      if trailing_marker lines s
      then ok s
      else judge (validate decode lines s.started s.ended) lines s

  -- A blank line with no frame before it is passed on.
  unfoldable pub end_frame : List Line → Progress → Outcome
  end_frame [] s = ok (send keep_alive s)
  end_frame (l ∷ ls) s = flush (l ∷ ls) s

  unfoldable pub last_frame : List Line → Progress → Outcome
  last_frame [] s = ok s
  last_frame (l ∷ ls) s = flush (l ∷ ls) s

  unfoldable pub read_lines : End → Input → List Line → Progress → Outcome
  read_lines end [] lines s = elim (last_frame lines s) [
    | ok t ↦ conclude end t
    | failed message t ↦ failed message t
  ]
  read_lines end (some l ∷ input) lines s = read_lines end input (lines ++ l ∷ []) s
  read_lines end (none ∷ input) lines s = elim (end_frame lines s) [
    | ok t ↦ read_lines end input [] t
    | failed message t ↦ failed message t
  ]

  unfoldable pub filter_sse : End → Input → Outcome
  filter_sse end input = read_lines end input [] new_progress
