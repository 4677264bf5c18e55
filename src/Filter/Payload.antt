-- ===== src/Filter/Payload.antt =====
-- What the filter changes in the payload of an event, of anthropic-proxy.go:
-- `addMessageStartUsageHint`, `setResponseModelAlias`, `filterMessageContent`,
-- `filterContentBlocks`, `payloadIndex` and `shouldDropSSEPayload`. The block types to drop are a
-- Boolean test; an estimate or an alias that is not set is 0 or the empty text.
use claude_gateway.Prelude.{
  ℕ, suc, String, Bool, true, false, ◌||◌, not, none, some, ◌∷◌, ◌==◌, str_eq, if◌then◌else◌,
}
use claude_gateway.Json.{
  ℤ, pos, Members, Elements, no_elements, element, object, array, number, text, get, put, has,
  as_text, as_object, as_members, as_elements, openai_number,
}
use claude_gateway.Filter.{FilterState, dropped, mapped}
use claude_gateway.ToolIds.{normalize_tool_id_block}

unfoldable pub with_usage_hint : ℕ → Members → Members
with_usage_hint hint usage =
    if has "input_tokens" usage
    then usage
    else let counted = put "input_tokens" (number (pos hint)) usage in
      if has "output_tokens" counted then counted else put "output_tokens" (number (pos 0)) counted

unfoldable pub add_usage_hint : ℕ → Members → Members
add_usage_hint hint payload =
    if hint == 0 || not (str_eq (as_text (get "type" payload)) "message_start")
    then payload
    else elim (as_object (get "message" payload)) [
      | none ↦ payload
      | some message ↦
          put "message"
            (object (
              put "usage" (object (with_usage_hint hint (as_members (get "usage" message))))
                message))
            payload
    ]

abbrev pub rename_model : String → Members → Members
rename_model alias m = if has "model" m then put "model" (text alias) m else m

unfoldable pub set_response_alias : String → Members → Members
set_response_alias alias payload =
    if str_eq alias ""
    then payload
    else let named = rename_model alias payload in
      elim (as_object (get "message" named)) [
        | none ↦ named
        | some message ↦ put "message" (object (rename_model alias message)) named
      ]

module _ (digest : String → String) (drop_type : String → Bool) where
  unfoldable pub filter_content_blocks : Elements → Elements
  filter_content_blocks no_elements = no_elements
  filter_content_blocks (element (object block) rest) =
      if drop_type (as_text (get "type" block))
      then filter_content_blocks rest
      else element (object (normalize_tool_id_block digest block)) (filter_content_blocks rest)
  filter_content_blocks (element other rest) = element other (filter_content_blocks rest)

  unfoldable pub filter_message_content : Members → Members
  filter_message_content payload =
      let message = as_members (get "message" payload) in
      elim (as_elements (get "content" message)) [
        | no_elements ↦ payload
        | element first rest ↦
            put "message"
              (object (put "content" (array (filter_content_blocks (element first rest))) message))
              payload
      ]

  unfoldable pub name_block : Members → Members
  name_block payload = elim (as_object (get "content_block" payload)) [
    | none ↦ payload
    | some block ↦ put "content_block" (object (normalize_tool_id_block digest block)) payload
  ]

  -- The payload to write, the new state, and whether the event is dropped.
  unfoldable pub start_block : ℤ → Members → FilterState → Members × FilterState × Bool
  start_block i payload st =
      let named = name_block payload in
      if drop_type (as_text (get "type" (as_members (get "content_block" named))))
      then (named, record st { drop = i ∷ st.drop }, true)
      else (
        put "index" (number (pos st.next)) named,
        record st { remap = (i, st.next) ∷ st.remap; next = suc st.next },
        false,
      )

  unfoldable pub continue_block : ℤ → Members → FilterState → Members × FilterState × Bool
  continue_block i payload st =
      if dropped i st.drop then (payload, st, true) else elim (mapped i st.remap) [
        | some n ↦ (put "index" (number (pos n)) payload, st, false)
        | none ↦ (
          put "index" (number (pos st.next)) payload,
          record st { remap = (i, st.next) ∷ st.remap; next = suc st.next },
          false,
        )
      ]

  unfoldable pub drop_by_kind : String → Members → FilterState → Members × FilterState × Bool
  drop_by_kind kind payload st =
      if str_eq kind "message_start"
      then (filter_message_content payload, st, false)
      else elim (openai_number (get "index" payload)) [
        | none ↦ (payload, st, false)
        | some i ↦
            if str_eq kind "content_block_start"
            then start_block i payload st
            else if str_eq kind "content_block_delta" || str_eq kind "content_block_stop"
            then continue_block i payload st
            else (payload, st, false)
      ]

  unfoldable pub should_drop : Members → FilterState → Members × FilterState × Bool
  should_drop payload st = drop_by_kind (as_text (get "type" payload)) payload st
