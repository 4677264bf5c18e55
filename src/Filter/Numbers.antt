-- ===== src/Filter/Numbers.antt =====
-- The numbers that the filter gives to the blocks.
use claude_gateway.Prelude.{
  ℕ, suc, ◌≤◌, String, Bool, true, false, ◌||◌, none, List, [], ◌∷◌, ◌++◌, ◌≡◌, refl, sym, ap,
  subst, ◌∙◌, str_eq, eq_iff, if◌then◌else◌, if_both, option_both, option_split, arith,
}
use claude_gateway.Json.{
  ℤ, pos, Value, Members, Elements, no_elements, element, null, object, array, text, number,
  fraction, boolean, get, put, get-put, get-put_other, as_text, as_members, as_elements,
  openai_number,
}
use claude_gateway.Filter.{FilterState, dropped, mapped}
use claude_gateway.Filter.Payload.{
  filter_message_content, filter_content_blocks, name_block, start_block, continue_block,
  drop_by_kind, should_drop,
}

-- The number of a payload that starts a block.
abbrev pub number_of : Value → List ℕ
number_of (number (pos n)) = n ∷ []
number_of _ = []

unfoldable pub start_numbers : Members → List ℕ
start_numbers payload =
    if str_eq (as_text (get "type" payload)) "content_block_start"
    then number_of (get "index" payload)
    else []

-- The numbers grow from `lo` and stay below `hi`.
abbrev pub Between : ℕ → ℕ → List ℕ → Type 0
Between lo hi [] = lo ≤ hi
Between lo hi (n ∷ ns) = (lo ≤ n) × Between (suc n) hi ns

Between-append :
    (lo mid hi : ℕ) (ms ns : List ℕ)
    → Between lo mid ms
    → Between mid hi ns
    → Between lo hi (ms ++ ns)
Between-append lo mid hi [] ns low high = Between-lower lo mid hi ns low high
  where
    Between-lower : (lo mid hi : ℕ) (ns : List ℕ) → lo ≤ mid → Between mid hi ns → Between lo hi ns
    Between-lower lo mid hi [] le b = omega arith
    Between-lower lo mid hi (n ∷ ns) le b = (omega (arith, b.0), b.1)
Between-append lo mid hi (m ∷ ms) ns low high =
    (low.0, Between-append (suc m) mid hi ms ns low.1 high)

-- A step of the filter: the written number, if there is one, is a new one.
record Step (st : FilterState) (r : Members × FilterState × Bool) : Type 0 where
  fresh : Between st.next r.1.next (if r.2 then [] else start_numbers r.0)

other_kind :
    (payload : Members) (kind : String)
    → as_text (get "type" payload) ≡ kind
    → str_eq kind "content_block_start" ≡ false
    → start_numbers payload ≡ []
unfolding start_numbers
other_kind payload kind e other = ground (arith, e, other)

-- A step that writes no number and allots none.
silent :
    (payload : Members) (st : FilterState) (drop : Bool)
    → start_numbers payload ≡ []
    → Step st (payload, st, drop)
silent payload st drop none_written = record { fresh = ground (arith, none_written) }

no_index :
    (payload : Members) → openai_number (get "index" payload) ≡ none → start_numbers payload ≡ []
unfolding start_numbers
no_index payload missing =
    if_both (λ ns. ns ≡ []) (str_eq (as_text (get "type" payload)) "content_block_start")
      (number_of (get "index" payload)) [] (λ h. not_number (get "index" payload) missing)
      (λ h. refl)
  where
    not_number : (v : Value) → openai_number v ≡ none → number_of v ≡ []
    not_number null e = refl
    not_number (object fs) e = refl
    not_number (array xs) e = refl
    not_number (text s) e = refl
    not_number (number z) e = ground arith
    not_number (fraction z) e = refl
    not_number (boolean b) e = refl

numbered :
    (n : ℕ) (payload : Members)
    → Between n (suc n) (start_numbers (put "index" (number (pos n)) payload))
unfolding start_numbers
numbered n payload =
    let written = put "index" (number (pos n)) payload in
    let index : get "index" written ≡ number (pos n) =
      get-put "index" "index" (number (pos n)) payload in
    if_both (Between n (suc n)) (str_eq (as_text (get "type" written)) "content_block_start")
      (number_of (get "index" written)) []
      (λ h. subst (λ v. Between n (suc n) (number_of v)) (sym index) (omega arith, omega arith))
      (λ h. omega arith)

abbrev pub all_numbers : List (Members × Members) → List ℕ
all_numbers [] = []
all_numbers ((payload, written) ∷ rest) = start_numbers written ++ all_numbers rest

module _ (digest : String → String) (drop_type : String → Bool) where
  content_type :
      (payload : Members)
      → get "type" (filter_message_content digest drop_type payload) ≡ get "type" payload
  unfolding filter_message_content
  content_type payload =
      content_of (as_elements (get "content" (as_members (get "message" payload))))
    where
      content_of :
          (content : Elements)
          → get "type" (elim content [
            | no_elements ↦ payload
            | element first rest ↦
                put "message"
                  (object (
                    put "content"
                      (array (filter_content_blocks digest drop_type (element first rest)))
                      (as_members (get "message" payload))))
                  payload
          ])
            ≡ get "type" payload
      content_of no_elements = refl
      content_of (element first rest) = get-put_other "type" "message" _ payload refl

  start_block-Step :
      (i : ℤ) (payload : Members) (st : FilterState)
      → Step st (start_block digest drop_type i payload st)
  unfolding start_block
  start_block-Step i payload st =
      let named = name_block digest drop_type payload in
      if_both (Step st) (drop_type (as_text (get "type" (as_members (get "content_block" named)))))
        (named, record st { drop = i ∷ st.drop }, true)
        (
          put "index" (number (pos st.next)) named,
          record st { remap = (i, st.next) ∷ st.remap; next = suc st.next },
          false,
        )
        (λ h. record { fresh = omega arith }) (λ h. record { fresh = numbered st.next named })

  continue_block-Step :
      (i : ℤ) (kind : String) (payload : Members) (st : FilterState)
      → as_text (get "type" payload) ≡ kind
      → str_eq kind "content_block_start" ≡ false
      → Step st (continue_block digest drop_type i payload st)
  unfolding continue_block
  continue_block-Step i kind payload st e other =
      let quiet = λ (n : ℕ).
        other_kind (put "index" (number (pos n)) payload) kind
          (ap as_text (get-put_other "type" "index" (number (pos n)) payload refl) ∙ e) other in
      if_both (Step st) (dropped i st.drop) (payload, st, true) _
        (λ h. silent payload st true (other_kind payload kind e other))
        (λ h.
          option_both (Step st) (mapped i st.remap)
            (
              put "index" (number (pos st.next)) payload,
              record st { remap = (i, st.next) ∷ st.remap; next = suc st.next },
              false,
            )
            (λ n. (put "index" (number (pos n)) payload, st, false))
            (record {
              fresh = subst (Between st.next (suc st.next)) (sym (quiet st.next)) (omega arith);
            })
            (λ n. silent (put "index" (number (pos n)) payload) st false (quiet n)))

  drop_by_kind-Step :
      (kind : String) (payload : Members) (st : FilterState)
      → as_text (get "type" payload) ≡ kind
      → Step st (drop_by_kind digest drop_type kind payload st)
  unfolding drop_by_kind
  drop_by_kind-Step kind payload st e =
      let start = start_block digest drop_type in
      let go_on = continue_block digest drop_type in
      let quiet : Members × FilterState × Bool = (payload, st, false) in
      if_both (Step st) (str_eq kind "message_start")
        (filter_message_content digest drop_type payload, st, false) _
        (λ first. silent (filter_message_content digest drop_type payload) st false (
          other_kind (filter_message_content digest drop_type payload) "message_start"
            (ap as_text (content_type payload) ∙ e ∙ (eq_iff kind "message_start").0 first) refl))
        (λ h.
          option_split (Step st) (openai_number (get "index" payload)) quiet _
            (λ missing. silent payload st false (no_index payload missing))
            (λ i found.
              if_both (Step st) (str_eq kind "content_block_start") (start i payload st) _
                (λ begins. start_block-Step i payload st)
                (λ other.
                  if_both (Step st)
                    (str_eq kind "content_block_delta" || str_eq kind "content_block_stop")
                    (go_on i payload st) quiet (λ h. continue_block-Step i kind payload st e other)
                    (λ h. silent payload st false (other_kind payload kind e other)))))

  -- The payloads of a stream, in order: those that are written, each with what is written of it,
  -- and the state left.
  unfoldable pub filter_blocks : List Members → FilterState → List (Members × Members) × FilterState
  filter_blocks [] st = ([], st)
  filter_blocks (payload ∷ rest) st =
      let (written, st', drop) = should_drop digest drop_type payload st in
      let (later, last) = filter_blocks rest st' in
      (if drop then later else (payload, written) ∷ later, last)

  joined :
      (drop : Bool) (payload written : Members) (later : List (Members × Members)) (lo mid hi : ℕ)
      → Between lo mid (if drop then [] else start_numbers written)
      → Between mid hi (all_numbers later)
      → Between lo hi (all_numbers (if drop then later else (payload, written) ∷ later))
  joined true payload written later lo mid hi low high =
      Between-append lo mid hi [] (all_numbers later) low high
  joined false payload written later lo mid hi low high =
      Between-append lo mid hi (start_numbers written) (all_numbers later) low high

  -- The numbers of the blocks that are started grow.
  pub filter_blocks-Between :
      (ps : List Members) (st : FilterState)
      → Between st.next (filter_blocks ps st).1.next (all_numbers (filter_blocks ps st).0)
  unfolding filter_blocks should_drop
  filter_blocks-Between [] st = omega arith
  filter_blocks-Between (payload ∷ rest) st =
      let r = should_drop digest drop_type payload st in
      let step = drop_by_kind-Step (as_text (get "type" payload)) payload st refl in
      joined r.2 payload r.0 (filter_blocks rest r.1).0 st.next r.1.next _ step.fresh
        (filter_blocks-Between rest r.1)
