-- ===== src/Filter/Renumbered.antt =====
-- Which number each written event of a block carries.
use claude_gateway.Prelude.{
  ℕ, suc, String, Bool, true, false, ◌||◌, Option, none, some, List, [], ◌∷◌, ◌++◌, ◌≡◌, refl, sym,
  ap, subst, ◌∙◌, str_eq, eq_iff, if◌then◌else◌, if_both, option_split, arith,
}
use claude_gateway.Json.{
  ℤ, pos, Members, number, get, put, get-put, as_text, as_members, openai_number,
}
use claude_gateway.Filter.{FilterState, new_filter, dropped, mapped}
use claude_gateway.Filter.Payload.{
  filter_message_content, name_block, start_block, continue_block, drop_by_kind, should_drop,
}
use claude_gateway.Filter.Numbers.{Between, all_numbers, filter_blocks, filter_blocks-Between}
use claude_gateway.Filter.Allotted.{
  BlockEvent, block_at, block_with, block_of, blocks_of, IsRenumbered, AllApart, IsRenumbered-free,
  IsRenumbered-given, renumbered-AllApart,
}

-- What is written of an event continues the numbering.
abbrev Continues : Members → FilterState → Members × FilterState × Bool → Type 0
Continues payload st r =
    (ws : List BlockEvent)
    → IsRenumbered r.1.remap r.1.next ws
    → IsRenumbered st.remap st.next ((if r.2 then [] else block_of payload r.0) ++ ws)

other_event :
    (payload written : Members) (kind : String)
    → as_text (get "type" payload) ≡ kind
    → str_eq kind "content_block_start" ≡ false
    → (str_eq kind "content_block_delta" || str_eq kind "content_block_stop") ≡ false
    → block_of payload written ≡ []
other_event payload written kind e a b =
    ap (λ k. block_with (openai_number (get "index" payload)) k written) e
    ∙ no_block (openai_number (get "index" payload))
  where
    no_block : (o : Option ℤ) → block_with o kind written ≡ []
    no_block none = refl
    no_block (some i) = rw (a, b) refl

no_index :
    (payload written : Members)
    → openai_number (get "index" payload) ≡ none
    → block_of payload written ≡ []
no_index payload written missing =
    ap (λ o. block_with o (as_text (get "type" payload)) written) missing

start_event :
    (payload written : Members) (kind : String) (i : ℤ)
    → as_text (get "type" payload) ≡ kind
    → openai_number (get "index" payload) ≡ some i
    → str_eq kind "content_block_start" ≡ true
    → block_of payload written ≡ (true, i, get "index" written) ∷ []
start_event payload written kind i e found a =
    ap (λ o. block_with o (as_text (get "type" payload)) written) found
    ∙ ap (λ k. block_at k i written) e
    ∙ rw a refl

later_event :
    (payload written : Members) (kind : String) (i : ℤ)
    → as_text (get "type" payload) ≡ kind
    → openai_number (get "index" payload) ≡ some i
    → str_eq kind "content_block_start" ≡ false
    → (str_eq kind "content_block_delta" || str_eq kind "content_block_stop") ≡ true
    → block_of payload written ≡ (false, i, get "index" written) ∷ []
later_event payload written kind i e found a b =
    ap (λ o. block_with o (as_text (get "type" payload)) written) found
    ∙ ap (λ k. block_at k i written) e
    ∙ rw (a, b) refl

-- An event without a block leaves the numbering as it is.
quiet_event :
    (payload written : Members) (st : FilterState)
    → block_of payload written ≡ []
    → Continues payload st (written, st, false)
quiet_event payload written st none_here ws r =
    subst (λ front. IsRenumbered st.remap st.next (front ++ ws)) (sym none_here) r

module _ (digest : String → String) (drop_type : String → Bool) where
  start_block-Continues :
      (i : ℤ) (kind : String) (payload : Members) (st : FilterState)
      → as_text (get "type" payload) ≡ kind
      → openai_number (get "index" payload) ≡ some i
      → str_eq kind "content_block_start" ≡ true
      → Continues payload st (start_block digest drop_type i payload st)
  unfolding start_block
  start_block-Continues i kind payload st e found a =
      let named = name_block digest drop_type payload in
      let written = put "index" (number (pos st.next)) named in
      if_both (Continues payload st)
        (drop_type (as_text (get "type" (as_members (get "content_block" named)))))
        (named, record st { drop = i ∷ st.drop }, true)
        (written, record st { remap = (i, st.next) ∷ st.remap; next = suc st.next }, false)
        (λ h ws r. r)
        (λ h ws r.
          subst (λ front. IsRenumbered st.remap st.next (front ++ ws))
            (sym (start_event payload written kind i e found a))
            (get-put "index" "index" (number (pos st.next)) named, r))

  renumber :
      (i : ℤ) (kind : String) (payload : Members) (st : FilterState)
      → as_text (get "type" payload) ≡ kind
      → openai_number (get "index" payload) ≡ some i
      → str_eq kind "content_block_start" ≡ false
      → (str_eq kind "content_block_delta" || str_eq kind "content_block_stop") ≡ true
      → Continues payload st (elim (mapped i st.remap) [
        | some n ↦ (put "index" (number (pos n)) payload, st, false)
        | none ↦ (
          put "index" (number (pos st.next)) payload,
          record st { remap = (i, st.next) ∷ st.remap; next = suc st.next },
          false,
        )
      ])
  renumber i kind payload st e found a b =
      let written = λ (n : ℕ). put "index" (number (pos n)) payload in
      option_split (Continues payload st) (mapped i st.remap)
        (written st.next, record st { remap = (i, st.next) ∷ st.remap; next = suc st.next }, false)
        (λ n. (written n, st, false))
        (λ free ws r.
          subst (λ front. IsRenumbered st.remap st.next (front ++ ws))
            (sym (later_event payload (written st.next) kind i e found a b))
            (IsRenumbered-free i (get "index" (written st.next)) ws st.remap st.next free
              (get-put "index" "index" (number (pos st.next)) payload) r))
        (λ n has ws r.
          subst (λ front. IsRenumbered st.remap st.next (front ++ ws))
            (sym (later_event payload (written n) kind i e found a b))
            (IsRenumbered-given i (get "index" (written n)) ws st.remap n st.next has
              (get-put "index" "index" (number (pos n)) payload) r))

  continue_block-Continues :
      (i : ℤ) (kind : String) (payload : Members) (st : FilterState)
      → as_text (get "type" payload) ≡ kind
      → openai_number (get "index" payload) ≡ some i
      → str_eq kind "content_block_start" ≡ false
      → (str_eq kind "content_block_delta" || str_eq kind "content_block_stop") ≡ true
      → Continues payload st (continue_block digest drop_type i payload st)
  unfolding continue_block
  continue_block-Continues i kind payload st e found a b =
      if_both (Continues payload st) (dropped i st.drop) (payload, st, true) _ (λ h ws r. r)
        (λ h. renumber i kind payload st e found a b)

  drop_by_kind-Continues :
      (kind : String) (payload : Members) (st : FilterState)
      → as_text (get "type" payload) ≡ kind
      → Continues payload st (drop_by_kind digest drop_type kind payload st)
  unfolding drop_by_kind
  drop_by_kind-Continues kind payload st e =
      let quiet : Members × FilterState × Bool = (payload, st, false) in
      if_both (Continues payload st) (str_eq kind "message_start")
        (filter_message_content digest drop_type payload, st, false) _
        (λ first. quiet_event payload (filter_message_content digest drop_type payload) st (
          other_event payload (filter_message_content digest drop_type payload) "message_start"
            (e ∙ (eq_iff kind "message_start").0 first) refl refl))
        (λ h.
          option_split (Continues payload st) (openai_number (get "index" payload)) quiet _
            (λ missing. quiet_event payload payload st (no_index payload payload missing))
            (λ i found.
              if_both (Continues payload st) (str_eq kind "content_block_start")
                (start_block digest drop_type i payload st) _
                (λ begins. start_block-Continues i kind payload st e found begins)
                (λ other.
                  if_both (Continues payload st)
                    (str_eq kind "content_block_delta" || str_eq kind "content_block_stop")
                    (continue_block digest drop_type i payload st) quiet
                    (λ later. continue_block-Continues i kind payload st e found other later)
                    (λ neither.
                      quiet_event payload payload st
                        (other_event payload payload kind e other neither)))))

  joined :
      (drop : Bool) (payload written : Members) (later : List (Members × Members))
      → blocks_of (if drop then later else (payload, written) ∷ later)
        ≡ (if drop then [] else block_of payload written) ++ blocks_of later
  joined true payload written later = refl
  joined false payload written later = refl

  filter_blocks-IsRenumbered :
      (ps : List Members) (st : FilterState)
      → IsRenumbered st.remap st.next (blocks_of (filter_blocks digest drop_type ps st).0)
  unfolding filter_blocks should_drop
  filter_blocks-IsRenumbered [] st = tt
  filter_blocks-IsRenumbered (payload ∷ rest) st =
      let r = should_drop digest drop_type payload st in
      let later = (filter_blocks digest drop_type rest r.1).0 in
      subst (IsRenumbered st.remap st.next) (sym (joined r.2 payload r.0 later)) (
        drop_by_kind-Continues (as_text (get "type" payload)) payload st refl (blocks_of later)
          (filter_blocks-IsRenumbered rest r.1))

-- Whatever events a stream has, whichever block types are dropped, and also where a delta comes
-- before its block: the blocks that the filter starts have growing numbers. Of the events that are
-- written, one that starts a block, and the first of an upstream index without a block, carries
-- the next free number from 0 on; every other event of a block carries the number of the last block
-- with its upstream index. No number is written for two upstream indexes.
pub filter_blocks_numbers :
    (digest : String → String) (drop_type : String → Bool) (ps : List Members)
    → let (written, st) = filter_blocks digest drop_type ps new_filter in
      Between 0 st.next (all_numbers written)
      × IsRenumbered [] 0 (blocks_of written)
      × AllApart (blocks_of written)
filter_blocks_numbers digest drop_type ps =
    let r = filter_blocks-IsRenumbered digest drop_type ps new_filter in
    (
      filter_blocks-Between digest drop_type ps new_filter,
      r,
      renumbered-AllApart (blocks_of (filter_blocks digest drop_type ps new_filter).0) [] 0
          (record { below = λ n i h. ground (arith, h); owned = λ i n h. ground (arith, h) }) r,
    )
