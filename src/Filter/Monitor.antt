-- ===== src/Filter/Monitor.antt =====
-- The order in which a client expects the events of a message, and the steps of `filterSSE` of
-- anthropic-proxy.go against it.

use claude_gateway.Prelude.{
  String, Bool, true, false, not, ◌&&◌, Option, none, some, List, [], ◌∷◌, ◌++◌, ◌≡◌, ◌≢◌, refl,
  sym, ap, subst, ◌∙◌, if◌then◌else◌, if_both, Option-cases, inl, inr, arith,
}
use claude_gateway.Json.{Members}
use claude_gateway.Stream.{is_empty}
use claude_gateway.Filter.{
  Line, event_data, Kind, message_start, content_block_start, content_block_delta,
  content_block_stop, message_delta, message_stop, ping, error, kind_of, FilterState, Output,
  keep_alive, verbatim, event, marker, failure,
}
use claude_gateway.Filter.Frame.{valid, check_order}
use claude_gateway.Filter.Kinds.{text_of, kind_of-text_of, given, is_block, reason_of, Kept}
use claude_gateway.Filter.Loop.{
  Progress, Outcome, ok, failed, send, send_some, note, flags, replaced, event_kind, close_open,
}

-- What the client has seen of the message. `reasoned` after a stop reason.
pub data Phase : Type 0 where
  waiting : Phase
  streaming : (reasoned : Bool) → Phase
  complete : Phase
  broken : Phase

-- An event in its place. A message stops only after a stop reason.
unfoldable pub accept_event : Kind → Members → Phase → Option Phase
accept_event ping payload p = some p
accept_event message_start payload waiting = some (streaming false)
accept_event error payload waiting = some broken
accept_event error payload (streaming r) = some broken
accept_event content_block_start payload (streaming r) = some (streaming r)
accept_event content_block_delta payload (streaming r) = some (streaming r)
accept_event content_block_stop payload (streaming r) = some (streaming r)
accept_event message_delta payload (streaming r) =
    some (streaming (if is_empty (reason_of payload) then r else true))
accept_event message_stop payload (streaming true) = some complete
accept_event _ payload _ = none

-- Whether a frame has no data, so that a client makes no event of it.
unfoldable pub has_no_data : List Line → Bool
has_no_data [] = true
has_no_data (l ∷ ls) = elim l.holds [ event_data content ↦ false | _ ↦ has_no_data ls ]

-- The filter's own error may follow anything, also a complete message.
unfoldable pub accept : Output → Phase → Option Phase
accept keep_alive p = some p
accept (verbatim lines) p = if has_no_data lines then some p else none
accept (event name payload) p = elim (kind_of name) [
  | none ↦ none
  | some k ↦ accept_event k payload p
]
accept (marker name content) p = none
accept (failure message) p = some broken

unfoldable pub watch : List Output → Phase → Option Phase
watch [] p = some p
watch (o ∷ os) p = elim (accept o p) [ none ↦ none | some q ↦ watch os q ]

watch-snoc :
    (os : List Output) (o : Output) (p q r : Phase)
    → watch os p ≡ some q
    → accept o q ≡ some r
    → watch (os ++ o ∷ []) p ≡ some r
unfolding watch
watch-snoc [] o p q r seen next = ground arith
watch-snoc (x ∷ os) o p q r seen next = elim (Option-cases (accept x p)) [
  | inl refused ↦ ground arith
  | inr (t, taken) ↦ ground (arith, watch-snoc os o t q r)
]

abbrev pub phase_of : Progress → Phase
phase_of s =
    if s.ended
    then if s.stopped && s.reasoned then complete else broken
    else if s.started
    then streaming s.reasoned
    else waiting

-- What the flags tell of one another.
pub record IsConsistent (s : Progress) : Type 0 where
  pub last : s.stopped ≡ true → s.ended ≡ true
  pub begun : s.reasoned ≡ true → s.started ≡ true

pub record Good (s : Progress) : Type 0 where
  pub seen : watch s.written waiting ≡ some (phase_of s)
  pub consistent : IsConsistent s

placed :
    (k : Kind) (payload : Members) (reason : String) (s : Progress)
    → check_order k s.started s.ended ≡ valid k
    → (k ≡ message_stop → s.reasoned ≡ true)
    → (k ≡ message_delta → reason ≡ reason_of payload)
    → IsConsistent s
    → accept_event k payload (phase_of s) ≡ some (phase_of (flags (some k) reason s))
unfolding accept_event flags check_order
placed message_start payload reason s order stop same c = ground (arith, c.last, c.begun)
placed content_block_start payload reason s order stop same c = ground arith
placed content_block_delta payload reason s order stop same c = ground arith
placed content_block_stop payload reason s order stop same c = ground arith
placed message_delta payload reason s order stop same c = ground (arith, same refl)
placed message_stop payload reason s order stop same c = ground (arith, stop refl)
placed ping payload reason s order stop same c = ground arith
placed error payload reason s order stop same c = ground (arith, c.last)

flags-IsConsistent :
    (k : Kind) (reason : String) (s : Progress)
    → check_order k s.started s.ended ≡ valid k
    → IsConsistent s
    → IsConsistent (flags (some k) reason s)
unfolding flags check_order
flags-IsConsistent message_start reason s order c = ground (arith, c.last, c.begun)
flags-IsConsistent content_block_start reason s order c = c
flags-IsConsistent content_block_delta reason s order c = c
flags-IsConsistent content_block_stop reason s order c = c
flags-IsConsistent message_delta reason s order c = ground (arith, c.last, c.begun)
flags-IsConsistent message_stop reason s order c = ground (arith, c.last, c.begun)
flags-IsConsistent ping reason s order c = c
flags-IsConsistent error reason s order c = ground (arith, c.last, c.begun)

flags_write :
    (k : Option Kind) (reason : String) (s : Progress) → (flags k reason s).written ≡ s.written
unfolding flags
flags_write k reason s = ground arith

send_event-Good :
    (k : Kind) (o : Output) (reason : String) (s : Progress)
    → check_order k s.started s.ended ≡ valid k
    → accept o (phase_of s) ≡ some (phase_of (flags (some k) reason s))
    → Good s
    → Good (send o (flags (some k) reason s))
send_event-Good k o reason s order taken g =
    let t = flags (some k) reason s in
    let c = flags-IsConsistent k reason s order g.consistent in
    record {
      seen =
          ap (λ os. watch (os ++ o ∷ []) waiting) (flags_write (some k) reason s)
          ∙ watch-snoc s.written o waiting (phase_of s) (phase_of t) g.seen taken;
      consistent = record { last = c.last; begun = c.begun };
    }

breaks : (message : String) (p : Phase) → accept (failure message) p ≡ some broken
unfolding accept
breaks message p = refl

-- A dropped event is about a block, and changes no flag.
dropped-Good :
    (k : Kind) (reason : String) (s : Progress)
    → is_block k ≡ true
    → Good s
    → Good (note (some k) reason none s)
unfolding note flags replaced
dropped-Good content_block_start reason s block g = g
dropped-Good content_block_delta reason s block g = g
dropped-Good content_block_stop reason s block g = g
dropped-Good message_start reason s block g = ground arith
dropped-Good message_delta reason s block g = ground arith
dropped-Good message_stop reason s block g = ground arith
dropped-Good ping reason s block g = ground arith
dropped-Good error reason s block g = ground arith

accept_named :
    (k : Kind) (payload : Members) (p : Phase)
    → accept (event (text_of k) payload) p ≡ accept_event k payload p
unfolding accept
accept_named k payload p = ground (arith, kind_of-text_of k)

-- A message_stop without a stop reason: the filter's error is written.
truncated :
    (reason : String) (s : Progress)
    → s.reasoned ≡ false
    → phase_of (flags (some message_stop) reason s) ≡ broken
unfolding flags
truncated reason s missing = ground (arith, missing)

stop_started :
    (s : Progress)
    → check_order message_stop s.started s.ended ≡ valid message_stop
    → s.started ≡ true
unfolding check_order
stop_started s order = ground arith

written-Good :
    (k : Kind) (payload : Members) (reason : String) (s : Progress)
    → check_order k s.started s.ended ≡ valid k
    → (k ≡ message_delta → reason ≡ reason_of payload)
    → Good s
    → Good (note (some k) reason (some (event (text_of k) payload)) s)
unfolding note replaced
written-Good message_stop payload reason s order same g =
    let started = stop_started s order in
    let stop = flags (some message_stop) reason s in
    if_both (λ out. Good (send_some out stop)) (s.started && not s.reasoned)
      (some (failure "upstream stream ended without stop_reason (truncated response)"))
      (some (event "message_stop" payload))
      (λ missing.
        send_event-Good message_stop
          (failure "upstream stream ended without stop_reason (truncated response)") reason s order
          (breaks _ (phase_of s) ∙ ap some (sym (truncated reason s (ground (arith, missing))))) g)
      (λ present.
        send_event-Good message_stop (event "message_stop" payload) reason s order
          (accept_named message_stop payload (phase_of s)
            ∙ placed message_stop payload reason s order (λ h. ground (arith, started, present))
                same g.consistent)
          g)
written-Good k payload reason s order same g =
    send_event-Good k (event (text_of k) payload) reason s order
      (accept_named k payload (phase_of s)
        ∙ placed k payload reason s order (λ h. ground arith) same g.consistent)
      g

pub Kept-Good :
    (k : Kind) (out : Option Output) (reason : String) (s : Progress)
    → check_order k s.started s.ended ≡ valid k
    → Kept k out reason
    → Good s
    → Good (note (some k) reason out s)
Kept-Good k out reason s order (inl (nothing, block)) g =
    subst (λ o. Good (note (some k) reason o s)) (sym nothing) (dropped-Good k reason s block g)
Kept-Good k out reason s order (inr (payload, wrote, same)) g =
    subst (λ o. Good (note (some k) reason o s)) (sym wrote)
      (written-Good k payload reason s order same g)

-- The filter's own state, and a keep-alive or a comment, change nothing of this.
pub send_same :
    (o : Output) (s : Progress)
    → accept o (phase_of s) ≡ some (phase_of s)
    → Good s
    → Good (send o s)
send_same o s same g = record {
  seen = watch-snoc s.written o waiting (phase_of s) (phase_of s) g.seen same;
  consistent = record { last = g.consistent.last; begun = g.consistent.begun };
}

pub filter_state-Good : (st : FilterState) (s : Progress) → Good s → Good (record s { filter = st })
filter_state-Good st s g = record {
  seen = g.seen;
  consistent = record { last = g.consistent.last; begun = g.consistent.begun };
}

-- What the client was sent ends with an error, or the message is complete or was not begun.
abbrev pub IsClosed : Progress → Type 0
IsClosed s = (p : Phase) × (watch s.written waiting ≡ some p) × ((r : Bool) → p ≢ streaming r)

abbrev pub Leaves : (Progress → Type 0) → Outcome → Type 0
Leaves P (ok s) = P s
Leaves P (failed message s) = IsClosed s

pub failure-IsClosed :
    (message : String) (s : Progress) → Good s → IsClosed (send (failure message) s)
unfolding accept
failure-IsClosed message s g = (
  broken,
  watch-snoc s.written (failure message) waiting (phase_of s) broken g.seen refl,
  λ r. ground arith,
)

quiet_phase :
    (s : Progress) (r : Bool) → (s.started && not s.ended) ≡ false → phase_of s ≢ streaming r
quiet_phase s r quiet = ground arith

pub close_open-IsClosed :
    (message : String) (s : Progress) → Good s → IsClosed (close_open message s)
unfolding close_open
close_open-IsClosed message s g =
    if_both IsClosed (s.started && not s.ended) (send (failure message) s) s
      (λ h. failure-IsClosed message s g)
      (λ quiet. (phase_of s, g.seen, λ r. quiet_phase s r quiet))

pub event_kind_kept :
    (k : Kind) (name : String) → name ≡ text_of k → event_kind name (valid k) ≡ some k
event_kind_kept k name called =
    subst (λ n. event_kind n (valid k) ≡ some k) (sym called)
      (ground (arith, given k, kind_of-text_of k))
