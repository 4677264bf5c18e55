-- ===== src/StreamPrelude/Agreement.antt =====
-- The two classifications of stream_prelude.go compared: what `metadataOnlySSE` skips and what
-- `classifyUsefulPrelude` holds back.
use claude_gateway.Prelude.{
  true, false, none, some, ◌≡◌, ◌⊎◌, refl, ap, subst, ◌∙◌, eq_iff, if◌then◌else◌, Option-cases,
  Bool-cases, inl, inr, arith, String,
}
use claude_gateway.Json.{
  Value, Members, Elements, no_elements, element, text, null, object, array, number, fraction,
  boolean, get, is_word, as_text, as_object, as_members, as_array,
}
use claude_gateway.StreamPrelude.{
  is_empty, all_blank, blank_choices, empty_block, empty_delta, metadata_only, proceed, refuse,
  useful_choices, useful_openai, or_openai, useful_block, useful_delta, useful_payload,
  is_blank_choice,
}
use claude_gateway.StreamPrelude.Metadata.{IsBlank, choice-IsBlank, choice_of, first_blank}

word_text : (w : String) (v : Value) → is_word w v ≡ true → v ≡ text w
word_text w (text s) h = ap text ((eq_iff s w).0 h)
word_text w null h = ground arith
word_text w (object fs) h = ground arith
word_text w (array xs) h = ground arith
word_text w (number z) h = ground arith
word_text w (fraction z) h = ground arith
word_text w (boolean b) h = ground arith

-- A choice without text, calls and finish reason decides nothing.
choice_skipped :
    (choice : Members) (rest : Elements)
    → IsBlank choice
    → useful_choices (element (object choice) rest) ≡ useful_choices rest
unfolding useful_choices
choice_skipped choice rest b = ground (arith, b.content, b.calls, b.unfinished)

useful_all_blank : (xs : Elements) → all_blank xs ≡ true → useful_choices xs ≡ proceed true
unfolding useful_choices
useful_all_blank no_elements h = refl
useful_all_blank (element v rest) h =
    let (first, later) = first_blank v rest h in
    let (choice, e) = choice_of v first in
    ap (λ w. useful_choices (element w rest)) e
    ∙ choice_skipped choice rest
        (choice-IsBlank choice (subst (λ w. is_blank_choice w ≡ true) e first))
    ∙ useful_all_blank rest later

blank_useful :
    (v : Value)
    → (elim (as_array v) [
      | none ↦ false
      | some choices ↦ elim choices [
        | no_elements ↦ false
        | element choice rest ↦ all_blank (element choice rest)
      ]
    ])
      ≡ true
    → (elim (as_array v) [
      | some choices ↦ useful_choices choices
      | none ↦ refuse "unsupported stream prelude"
    ])
      ≡ proceed true
blank_useful (array (element choice rest)) h = useful_all_blank (element choice rest) h
blank_useful (array no_elements) h = ground arith
blank_useful null h = ground arith
blank_useful (text s) h = ground arith
blank_useful (object fs) h = ground arith
blank_useful (number z) h = ground arith
blank_useful (fraction z) h = ground arith
blank_useful (boolean b) h = ground arith

blank-useful_openai : (p : Members) → blank_choices p ≡ true → useful_openai p ≡ proceed true
unfolding blank_choices useful_openai
blank-useful_openai p h = blank_useful (get "choices" p) h

empty_text : (v : Value) → is_word "" v ≡ true → is_empty (as_text v) ≡ true
empty_text v h = ap (λ w. is_empty (as_text w)) (word_text "" v h)

members_of : (v : Value) (m : Members) → as_object v ≡ some m → as_members v ≡ m
members_of v m h = ground arith

-- A part that is empty text, or of the other kind.
empty_kinds :
    (first second : String) (kind body other : Value)
    → (if is_word first kind
        then is_word "" body
        else if is_word second kind
        then is_word "" other
        else false)
      ≡ true
    → ((kind ≡ text first) × (is_empty (as_text body) ≡ true)) ⊎ (kind ≡ text second)
empty_kinds first second kind body other h = elim (Bool-cases (is_word first kind)) [
  | inl here ↦ inl (word_text first kind here, empty_text body (ground (arith, here, h)))
  | inr not_first ↦ inr (word_text second kind (ground (arith, not_first, h)))
]

block_useful : (p : Members) → empty_block p ≡ true → or_openai (useful_block p) p ≡ proceed true
unfolding empty_block useful_block
block_useful p h = elim (Option-cases (as_object (get "content_block" p))) [
  | inl missing ↦ ground (arith, missing)
  | inr (block, found) ↦
      let inside = members_of (get "content_block" p) block found in
      elim (empty_kinds "text" "thinking" (get "type" block) (get "text" block)
        (get "thinking" block) (ground (arith, found, h))) [
          | inl (kind, empty) ↦ ground (arith, inside, kind, empty)
          | inr kind ↦ ground (arith, inside, kind)
        ]
]

delta_useful : (p : Members) → empty_delta p ≡ true → or_openai (useful_delta p) p ≡ proceed true
unfolding empty_delta useful_delta
delta_useful p h = elim (Option-cases (as_object (get "delta" p))) [
  | inl missing ↦ ground (arith, missing)
  | inr (delta, found) ↦
      let inside = members_of (get "delta" p) delta found in
      elim (empty_kinds "text_delta" "thinking_delta" (get "type" delta) (get "text" delta)
        (get "thinking" delta) (ground (arith, found, h))) [
          | inl (kind, empty) ↦ ground (arith, inside, kind, empty)
          | inr kind ↦ ground (arith, inside, kind)
        ]
]

-- A frame that is skipped as metadata does not commit a strict route either, unless it is the end
-- of a message or its delta, which the other classification looks at first.
pub metadata_only-useful_payload :
    (p : Members)
    → is_word "message_stop" (get "type" p) ≡ false
    → is_word "message_delta" (get "type" p) ≡ false
    → metadata_only p ≡ true
    → useful_payload p ≡ proceed true
unfolding metadata_only useful_payload
metadata_only-useful_payload p not_stop not_delta h =
    ground (arith, not_stop, not_delta, h, blank-useful_openai p, block_useful p, delta_useful p)
