-- ===== src/Filter/Passed.antt =====
-- The frames that the validation passes, and what the filter makes of them, for
-- `validateAnthropicSSEEvent` and `filterSSEEvent` of anthropic-proxy.go.

use claude_gateway.Prelude.{
  ℕ, String, Bool, false, some, List, [], ◌∷◌, ◌≡◌, ◌≢◌, refl, sym, ap, subst, ◌∙◌, str_eq, eq_iff,
  if◌then◌else◌, if_both, option_both, Bool-cases, inl, inr, arith,
}
use claude_gateway.Json.{
  Members, Decoded, malformed, nil, decoded, get, as_text, as_members, openai_number,
}
use claude_gateway.Stream.Lines.{join_lines}
use claude_gateway.Filter.{
  Line, Kind, message_start, content_block_start, content_block_delta, content_block_stop,
  message_delta, message_stop, ping, error, FilterState, verbatim,
}
use claude_gateway.Filter.Payload.{add_usage_hint, set_response_alias, should_drop, drop_by_kind}
use claude_gateway.Filter.Frame.{
  no_event, valid, invalid, validate, check_data, check_payload, check_order, name_of, data_of,
  Filtered, named, filter_payload, filter_data, filter_event,
}
use claude_gateway.Filter.Kinds.{
  changes_keep, text_of, is_block, reason_of, kept_lem, IsKept, check_payload_facts,
  check_payload_event,
}

module _ (decode : String → Decoded) (digest : String → String) (drop_type : String → Bool)
    (hint : ℕ) (alias : String) where
  abbrev Dropped : Members × FilterState × Bool → Type 0
  Dropped r = r.2 ≡ false

  quiet :
      (k : Kind) (payload : Members) (st : FilterState)
      → is_block k ≡ false
      → (drop_by_kind digest drop_type (text_of k) payload st).2 ≡ false
  unfolding drop_by_kind
  quiet message_start payload st h = refl
  quiet message_delta payload st h =
      option_both Dropped (openai_number (get "index" payload)) _ _ refl (λ i. refl)
  quiet message_stop payload st h =
      option_both Dropped (openai_number (get "index" payload)) _ _ refl (λ i. refl)
  quiet ping payload st h =
      option_both Dropped (openai_number (get "index" payload)) _ _ refl (λ i. refl)
  quiet error payload st h =
      option_both Dropped (openai_number (get "index" payload)) _ _ refl (λ i. refl)
  quiet content_block_start payload st h = ground arith
  quiet content_block_delta payload st h = ground arith
  quiet content_block_stop payload st h = ground arith

  stop_same :
      (k : Kind) (payload : Members)
      → k ≡ message_delta
      → (if str_eq (text_of k) "message_delta" then reason_of payload else "") ≡ reason_of payload
  stop_same k payload delta =
      ap (λ j. if str_eq (text_of j) "message_delta" then reason_of payload else "") delta

  delta_same :
      (payload : Members) (st : FilterState)
      → (drop_by_kind digest drop_type "message_delta" payload st).0 ≡ payload
  unfolding drop_by_kind
  delta_same payload st =
      option_both (λ (r : Members × FilterState × Bool). r.0 ≡ payload)
        (openai_number (get "index" payload)) _ _ refl (λ i. refl)

  filter_payload-IsKept :
      (k : Kind) (payload : Members) (st : FilterState)
      → as_text (get "type" payload) ≡ text_of k
      → IsKept k (filter_payload decode digest drop_type hint alias (text_of k) payload st)
  unfolding filter_payload should_drop
  filter_payload-IsKept k payload st e =
      let changed = set_response_alias alias (add_usage_hint hint payload) in
      let t = as_text (get "type" changed) in
      let named : t ≡ text_of k =
        (ap as_text (changes_keep "type" alias hint payload refl refl) ∙ e) in
      let stop = if str_eq (text_of k) "message_delta" then reason_of payload else "" in
      record {
        name = refl;
        kept =
            kept_lem k stop (drop_by_kind digest drop_type t changed st)
              (λ other.
                subst (λ u. (drop_by_kind digest drop_type u changed st).2 ≡ false) (sym named)
                  (quiet k changed st other))
              (λ delta.
                stop_same k payload delta
                ∙ sym (
                    ap (λ m. as_text (get "stop_reason" (as_members m)))
                      (changes_keep "delta" alias hint payload refl refl))
                ∙ sym (
                    ap reason_of (
                      subst (λ u. (drop_by_kind digest drop_type u changed st).0 ≡ changed)
                        (sym (named ∙ ap text_of delta)) (delta_same changed st))));
      }

  abbrev pub Passed : Kind → Bool → Bool → Filtered → Type 0
  Passed k started ended f = (check_order k started ended ≡ valid k) × IsKept k f

  payload_Passed :
      (name : String) (payload : Members) (started ended : Bool) (k : Kind) (st : FilterState)
      → check_payload name payload started ended ≡ valid k
      → Passed k started ended
          (filter_payload decode digest drop_type hint alias (named name payload) payload st)
  payload_Passed name payload started ended k st e =
      let (kind, same_name, order) = check_payload_facts name payload started ended k e in
      (
        order,
        subst (λ n. IsKept k (filter_payload decode digest drop_type hint alias n payload st))
            (sym same_name) (filter_payload-IsKept k payload st kind),
      )

  data_Passed :
      (lines : List Line) (name content : String) (started ended : Bool) (k : Kind)
      (st : FilterState) (d : Decoded)
      → decode content ≡ d
      → check_data decode name content started ended ≡ valid k
      → Passed k started ended
          (filter_data decode digest drop_type hint alias lines name content st)
  unfolding check_data filter_data
  data_Passed lines name content started ended k st malformed known e = ground (arith, known, e)
  data_Passed lines name content started ended k st nil known e = ground (arith, known, e)
  data_Passed lines name content started ended k st (decoded payload) known e =
      elim (Bool-cases (str_eq content "[DONE]")) [
        | inl marked ↦ ground (arith, marked, e)
        | inr other ↦
            let checked : check_payload name payload started ended ≡ valid k =
              (ground (arith, other, known, e)) in
            rw (other, known) (payload_Passed name payload started ended k st checked)
      ]

  frame_Passed :
      (lines : List Line) (ds : List String) (started ended : Bool) (k : Kind) (st : FilterState)
      → data_of lines ≡ ds
      → validate decode lines started ended ≡ valid k
      → Passed k started ended (filter_event decode digest drop_type hint alias lines st)
  unfolding validate filter_event
  frame_Passed lines [] started ended k st given_data e = ground (arith, given_data, e)
  frame_Passed lines (first ∷ rest) started ended k st given_data e =
      let checked : check_data decode (name_of "" lines) (join_lines (first ∷ rest)) started ended
          ≡ valid k =
        (ground (arith, given_data, e)) in
      let opened : filter_event decode digest drop_type hint alias lines st
          ≡ filter_data decode digest drop_type hint alias lines (name_of "" lines)
              (join_lines (first ∷ rest)) st =
        (ground (arith, given_data)) in
      subst (Passed k started ended) (sym opened) (
        data_Passed lines (name_of "" lines) (join_lines (first ∷ rest)) started ended k st
          (decode (join_lines (first ∷ rest))) refl checked)

  -- A frame that the validation takes for an event of the kind `k` is filtered as one.
  pub validate-IsKept :
      (lines : List Line) (started ended : Bool) (k : Kind) (st : FilterState)
      → validate decode lines started ended ≡ valid k
      → Passed k started ended (filter_event decode digest drop_type hint alias lines st)
  validate-IsKept lines started ended k st e =
      frame_Passed lines (data_of lines) started ended k st refl e

  check_data_event :
      (name content : String) (started ended : Bool)
      → check_data decode name content started ended ≢ no_event
  unfolding check_data
  check_data_event name content started ended =
      if_both (λ v. v ≢ no_event) (str_eq content "[DONE]")
        (invalid "OpenAI [DONE] marker on Anthropic stream") _ (λ h. ground arith)
        (λ h. decoded_event (decode content))
    where
      decoded_event :
          (d : Decoded)
          → (elim d [
            | malformed ↦ invalid "invalid JSON data"
            | nil ↦ invalid "event payload has no type"
            | decoded payload ↦ check_payload name payload started ended
          ])
            ≢ no_event
      decoded_event malformed = ground arith
      decoded_event nil = ground arith
      decoded_event (decoded payload) = check_payload_event name payload started ended

  comment_frame :
      (lines : List Line) (ds : List String) (started ended : Bool) (st : FilterState)
      → data_of lines ≡ ds
      → validate decode lines started ended ≡ no_event
      → filter_event decode digest drop_type hint alias lines st
        ≡ record { output = some (verbatim lines); name = ""; stop_reason = ""; state = st }
  unfolding validate filter_event
  comment_frame lines [] started ended st none_given e =
      ground (arith, none_given, e, eq_iff (name_of "" lines) "")
  comment_frame lines (first ∷ rest) started ended st given_data e = ground (
    arith,
    given_data,
    e,
    check_data_event (name_of "" lines) (join_lines (first ∷ rest)) started ended,
  )

  no_event_data :
      (lines : List Line) (ds : List String) (started ended : Bool)
      → data_of lines ≡ ds
      → validate decode lines started ended ≡ no_event
      → data_of lines ≡ []
  unfolding validate
  no_event_data lines [] started ended given_data e = given_data
  no_event_data lines (first ∷ rest) started ended given_data e = ground (
    arith,
    given_data,
    e,
    check_data_event (name_of "" lines) (join_lines (first ∷ rest)) started ended,
  )

  pub no_event-data_of :
      (lines : List Line) (started ended : Bool)
      → validate decode lines started ended ≡ no_event
      → data_of lines ≡ []
  no_event-data_of lines started ended e = no_event_data lines (data_of lines) started ended refl e

  -- A frame of comments is passed on as it is.
  pub no_event-filter_event :
      (lines : List Line) (started ended : Bool) (st : FilterState)
      → validate decode lines started ended ≡ no_event
      → filter_event decode digest drop_type hint alias lines st
        ≡ record { output = some (verbatim lines); name = ""; stop_reason = ""; state = st }
  no_event-filter_event lines started ended st e =
      comment_frame lines (data_of lines) started ended st refl e
