-- ===== src/Filter/Order.antt =====
-- The order of what `filterSSE` of anthropic-proxy.go writes, over the whole loop.
use Prim.Native.String.{◌++◌ as join}
use claude_gateway.Prelude.{
  true, ℕ, String, Bool, none, some, List, [], ◌∷◌, ◌++◌, ◌≡◌, refl, sym, subst, if_both, arith,
}
use claude_gateway.Json.{Decoded}
use claude_gateway.Stream.Lines.{End, eof, interrupted}
use claude_gateway.Filter.{Line, Kind, keep_alive, verbatim}
use claude_gateway.Filter.Frame.{data_of, Verdict, no_event, valid, invalid, validate, filter_event}
use claude_gateway.Filter.Passed.{validate-IsKept, no_event-filter_event, no_event-data_of}
use claude_gateway.Filter.Loop.{
  Progress, new_progress, Outcome, ok, failed, Input, note, flags, replaced, event_kind,
  trailing_marker, pass, judge, flush, conclude, end_frame, last_frame, read_lines, filter_sse,
}
use claude_gateway.Filter.Monitor.{
  has_no_data, phase_of, Phase, Good, watch, accept, Kept-Good, failure-IsClosed,
  close_open-IsClosed, event_kind_kept, filter_state-Good, send_same, IsClosed, Leaves,
}

module _ (decode : String → Decoded) (digest : String → String) (drop_type : String → Bool)
    (hint : ℕ) (alias : String) (trimmed : String → String) where
  valid-Good :
      (k : Kind) (lines : List Line) (s : Progress)
      → validate decode lines s.started s.ended ≡ valid k
      → Good s
      → Good (pass decode digest drop_type hint alias trimmed (valid k) lines s)
  unfolding pass
  valid-Good k lines s checked g =
      let f = filter_event decode digest drop_type hint alias lines s.filter in
      let t = record s { filter = f.state } in
      let (order, kept) =
        validate-IsKept decode digest drop_type hint alias lines s.started s.ended k s.filter
          checked in
      subst (λ kind. Good (note kind f.stop_reason f.output t))
        (sym (event_kind_kept k f.name kept.name))
        (Kept-Good k f.output f.stop_reason t order kept.kept (filter_state-Good f.state s g))

  quiet_frame : (lines : List Line) → data_of lines ≡ [] → has_no_data lines ≡ true
  unfolding data_of has_no_data
  quiet_frame [] h = refl
  quiet_frame (l ∷ ls) h = ground (arith, quiet_frame ls)

  accept-quiet :
      (lines : List Line) (p : Phase)
      → has_no_data lines ≡ true
      → accept (verbatim lines) p ≡ some p
  unfolding accept
  accept-quiet lines p h = ground (arith, h)

  comment-Good :
      (lines : List Line) (s : Progress)
      → validate decode lines s.started s.ended ≡ no_event
      → Good s
      → Good (pass decode digest drop_type hint alias trimmed no_event lines s)
  unfolding pass note flags replaced accept
  comment-Good lines s checked g =
      subst
        (λ f. Good (
          note (event_kind f.name no_event) f.stop_reason f.output (record s { filter = f.state })))
        (sym (
          no_event-filter_event decode digest drop_type hint alias lines s.started s.ended s.filter
            checked))
        (send_same (verbatim lines) s
          (accept-quiet lines (phase_of s) (
            quiet_frame lines (
              no_event-data_of decode digest drop_type hint alias lines s.started s.ended checked)))
          g)

  judge-Leaves :
      (v : Verdict) (lines : List Line) (s : Progress)
      → validate decode lines s.started s.ended ≡ v
      → Good s
      → Leaves Good (judge decode digest drop_type hint alias trimmed v lines s)
  unfolding judge
  judge-Leaves (invalid reason) lines s checked g =
      failure-IsClosed (join "malformed upstream Anthropic SSE: " reason) s g
  judge-Leaves no_event lines s checked g = comment-Good lines s checked g
  judge-Leaves (valid k) lines s checked g = valid-Good k lines s checked g

  flush-Leaves :
      (lines : List Line) (s : Progress)
      → Good s
      → Leaves Good (flush decode digest drop_type hint alias trimmed lines s)
  unfolding flush
  flush-Leaves lines s g =
      if_both (Leaves Good) (trailing_marker decode digest drop_type hint alias trimmed lines s)
        (ok s) _ (λ h. g)
        (λ h. judge-Leaves (validate decode lines s.started s.ended) lines s refl g)

  frame-Leaves :
      (lines : List Line) (s : Progress)
      → Good s
      → Leaves Good (end_frame decode digest drop_type hint alias trimmed lines s)
        × Leaves Good (last_frame decode digest drop_type hint alias trimmed lines s)
  unfolding end_frame last_frame accept
  frame-Leaves [] s g = (send_same keep_alive s refl g, g)
  frame-Leaves (l ∷ ls) s g = (flush-Leaves (l ∷ ls) s g, flush-Leaves (l ∷ ls) s g)

  after_frame :
      (o : Outcome) (next : Progress → Outcome)
      → Leaves Good o
      → ((t : Progress) → Good t → Leaves IsClosed (next t))
      → Leaves IsClosed (elim o [ ok t ↦ next t | failed message t ↦ failed message t ])
  after_frame (ok t) next h then_next = then_next t h
  after_frame (failed message t) next h then_next = h

  concludes : (end : End) (s : Progress) → Good s → Leaves IsClosed (conclude end s)
  unfolding conclude
  concludes eof s g = close_open-IsClosed "upstream stream ended before message_stop" s g
  concludes (interrupted message) s g =
      close_open-IsClosed (join "upstream stream interrupted: " message) s g

  read_lines-Leaves :
      (end : End) (input : Input) (lines : List Line) (s : Progress)
      → Good s
      → Leaves IsClosed (read_lines decode digest drop_type hint alias trimmed end input lines s)
  unfolding read_lines
  read_lines-Leaves end [] lines s g =
      after_frame _ (conclude end) (frame-Leaves lines s g).1 (concludes end)
  read_lines-Leaves end (some l ∷ input) lines s g =
      read_lines-Leaves end input (lines ++ l ∷ []) s g
  read_lines-Leaves end (none ∷ input) lines s g =
      after_frame _ (read_lines decode digest drop_type hint alias trimmed end input [])
        (frame-Leaves lines s g).0 (read_lines-Leaves end input [])

new_progress-Good : Good new_progress
unfolding watch
new_progress-Good = record {
  seen = refl;
  consistent = record { last = λ h. ground arith; begun = λ h. ground arith };
}

-- Whatever lines the upstream sends, however it ends, and whatever is dropped or renamed on the
-- way, what the client is sent is accepted: at most one message, its events after its start, its
-- end only after a stop reason, and after its end nothing but pings, frames without data, blank
-- lines and an error. Frames with data are never passed on as they came. When the filter returns,
-- with nil or with an error, the message is not left open: it is complete, it was never begun, or
-- an error event was sent.
pub filter_sse-IsClosed :
    (decode : String → Decoded) (digest : String → String) (drop_type : String → Bool) (hint : ℕ)
    (alias : String) (trimmed : String → String) (end : End) (input : Input)
    → Leaves IsClosed (filter_sse decode digest drop_type hint alias trimmed end input)
unfolding filter_sse
filter_sse-IsClosed decode digest drop_type hint alias trimmed end input =
    read_lines-Leaves decode digest drop_type hint alias trimmed end input [] new_progress
      new_progress-Good
