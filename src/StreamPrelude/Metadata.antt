-- ===== src/StreamPrelude/Metadata.antt =====
-- What the chunks that stream_prelude.go skips as metadata hold, and their translation.
use claude_gateway.Prelude.{
  String, true, false, none, some, ◌≡◌, ◌≢◌, refl, ap, subst, ◌∙◌, str_eq, eq_iff, if_both, arith,
}
use claude_gateway.Json.{
  Value, Members, Elements, no_members, member, no_elements, element, text, null, object, array,
  number, fraction, boolean, get, is_null, as_text, as_object, as_members, as_array, as_elements,
}
use claude_gateway.Stream.{Stream, ok, and_then}
use claude_gateway.Stream.Chunks.{
  text_content, process_tool_calls, note_finish, process_choice, process_choices, process_chunk,
  start_message, observe_usage,
}
use claude_gateway.StreamPrelude.{
  is_empty, is_blank_key, is_blank_delta, is_blank_choice, all_blank, blank_choices, metadata_only,
}

blank_value :
    (value : Value) → is_blank_key "content" value ≡ true → is_empty (as_text value) ≡ true
unfolding is_blank_key
blank_value null h = refl
blank_value (text s) h = ground arith
blank_value (object fs) h = ground arith
blank_value (array xs) h = ground arith
blank_value (number z) h = ground arith
blank_value (fraction z) h = ground arith
blank_value (boolean b) h = ground arith

no_call_key : (value : Value) → is_blank_key "tool_calls" value ≢ true
unfolding is_blank_key
no_call_key value h = cc

blank_key :
    (d : Members) (key : String) (value : Value)
    → is_blank_delta (member key value d) ≡ true
    → (is_blank_key key value ≡ true) × (is_blank_delta d ≡ true)
unfolding is_blank_delta
blank_key d key value h = ground arith

-- A blank delta has no text and no tool call.
blank_content :
    (d : Members) → is_blank_delta d ≡ true → is_empty (as_text (get "content" d)) ≡ true
unfolding get
blank_content no_members h = refl
blank_content (member key value rest) h =
    let (here, later) = blank_key rest key value h in
    if_both (λ v. is_empty (as_text v) ≡ true) (str_eq key "content") value (get "content" rest)
      (λ e.
        blank_value value
          (subst (λ k. is_blank_key k value ≡ true) ((eq_iff key "content").0 e) here))
      (λ e. blank_content rest later)

blank_calls :
    (d : Members) → is_blank_delta d ≡ true → as_elements (get "tool_calls" d) ≡ no_elements
unfolding get
blank_calls no_members h = refl
blank_calls (member key value rest) h =
    let (here, later) = blank_key rest key value h in
    if_both (λ v. as_elements v ≡ no_elements) (str_eq key "tool_calls") value
      (get "tool_calls" rest)
      (λ e. absurd (
        no_call_key value
          (subst (λ k. is_blank_key k value ≡ true) ((eq_iff key "tool_calls").0 e) here)))
      (λ e. blank_calls rest later)

-- What a blank choice tells of its fields.
pub record IsBlank (choice : Members) : Type 0 where
  pub unfinished : get "finish_reason" choice ≡ null
  pub content : is_empty (as_text (get "content" (as_members (get "delta" choice)))) ≡ true
  pub calls : as_elements (get "tool_calls" (as_members (get "delta" choice))) ≡ no_elements

null_of : (v : Value) → is_null v ≡ true → v ≡ null
null_of null h = refl
null_of (text s) h = ground arith
null_of (object fs) h = ground arith
null_of (array xs) h = ground arith
null_of (number z) h = ground arith
null_of (fraction z) h = ground arith
null_of (boolean b) h = ground arith

delta_of :
    (v : Value)
    → (elim (as_object v) [ none ↦ false | some delta ↦ is_blank_delta delta ]) ≡ true
    → is_blank_delta (as_members v) ≡ true
delta_of (object fs) h = h
delta_of null h = ground arith
delta_of (text s) h = ground arith
delta_of (array xs) h = ground arith
delta_of (number z) h = ground arith
delta_of (fraction z) h = ground arith
delta_of (boolean b) h = ground arith

blank_parts :
    (choice : Members)
    → is_blank_choice (object choice) ≡ true
    → (is_null (get "finish_reason" choice) ≡ true)
      × (is_blank_delta (as_members (get "delta" choice)) ≡ true)
unfolding is_blank_choice
blank_parts choice h = (ground arith, delta_of (get "delta" choice) (ground arith))

pub choice-IsBlank : (choice : Members) → is_blank_choice (object choice) ≡ true → IsBlank choice
choice-IsBlank choice h =
    let (open_end, blank) = blank_parts choice h in
    let delta = as_members (get "delta" choice) in
    record {
      unfinished = null_of (get "finish_reason" choice) open_end;
      content = blank_content delta blank;
      calls = blank_calls delta blank;
    }

text_content_blank :
    (content : String) (s : Stream) → is_empty content ≡ true → text_content content s ≡ s
unfolding text_content
text_content_blank content s h = ground (arith, h)

note_finish_blank :
    (reason : Value) (s : Stream) → reason ≡ null → note_finish (as_text reason) s ≡ s
unfolding note_finish
note_finish_blank reason s h = ap (λ v. note_finish (as_text v) s) h ∙ ground arith

process_blank :
    (choice : Members) (s : Stream) → IsBlank choice → process_choice (object choice) s ≡ ok s
unfolding process_choice process_tool_calls
process_blank choice s b =
    let delta = as_members (get "delta" choice) in
    let t = text_content (as_text (get "content" delta)) s in
    let same = text_content_blank (as_text (get "content" delta)) s b.content in
    let reason = get "finish_reason" choice in
    ap (λ calls. and_then (process_tool_calls calls t) (λ u. ok (note_finish (as_text reason) u)))
      b.calls
    ∙ ap (λ u. ok (note_finish (as_text reason) u)) same
    ∙ ap ok (note_finish_blank reason s b.unfinished)

pub choice_of : (v : Value) → is_blank_choice v ≡ true → (choice : Members) × (v ≡ object choice)
unfolding is_blank_choice
choice_of (object choice) h = (choice, refl)
choice_of null h = ground arith
choice_of (text s) h = ground arith
choice_of (array xs) h = ground arith
choice_of (number z) h = ground arith
choice_of (fraction z) h = ground arith
choice_of (boolean b) h = ground arith

pub first_blank :
    (v : Value) (rest : Elements)
    → all_blank (element v rest) ≡ true
    → (is_blank_choice v ≡ true) × (all_blank rest ≡ true)
unfolding all_blank
first_blank v rest h = ground arith

process_value : (v : Value) (s : Stream) → is_blank_choice v ≡ true → process_choice v s ≡ ok s
process_value v s h =
    let (choice, e) = choice_of v h in
    ap (λ w. process_choice w s) e
    ∙ process_blank choice s (choice-IsBlank choice (subst (λ w. is_blank_choice w ≡ true) e h))

-- Blank choices leave a stream as it is.
process_all_blank : (xs : Elements) (s : Stream) → all_blank xs ≡ true → process_choices xs s ≡ ok s
unfolding process_choices
process_all_blank no_elements s h = refl
process_all_blank (element v rest) s h =
    let (first, later) = first_blank v rest h in
    ap (λ o. and_then o (process_choices rest)) (process_value v s first)
    ∙ process_all_blank rest s later

blank_array :
    (v : Value)
    → (elim (as_array v) [
      | none ↦ false
      | some choices ↦ elim choices [
        | no_elements ↦ false
        | element choice rest ↦ all_blank (element choice rest)
      ]
    ])
      ≡ true
    → all_blank (as_elements v) ≡ true
blank_array (array (element choice rest)) h = h
blank_array (array no_elements) h = ground arith
blank_array null h = ground arith
blank_array (text s) h = ground arith
blank_array (object fs) h = ground arith
blank_array (number z) h = ground arith
blank_array (fraction z) h = ground arith
blank_array (boolean b) h = ground arith

untyped : (p : Members) → get "type" p ≡ null → metadata_only p ≡ true → blank_choices p ≡ true
unfolding metadata_only
untyped p plain h = ground (arith, plain, h)

-- A chunk without a type that is skipped as metadata changes nothing but the usage, and begins the
-- message if none has begun: no text and no tool call of it is lost by skipping it.
pub metadata_only-process_chunk :
    (p : Members) (s : Stream)
    → get "type" p ≡ null
    → metadata_only p ≡ true
    → process_chunk p s ≡ ok (start_message p (observe_usage p s))
unfolding process_chunk blank_choices
metadata_only-process_chunk p s plain skipped =
    process_all_blank (as_elements (get "choices" p)) (start_message p (observe_usage p s))
      (blank_array (get "choices" p) (untyped p plain skipped))
