-- ===== src/ToolIds.antt =====
-- Tool identifiers, of anthropic-proxy.go: `validToolUseID`, `sanitizeToolUseID` and
-- `normalizeToolIDBlock`. The digest, the first six bytes of SHA-256 in hexadecimal, is a
-- parameter. Prefixes and the cut are by characters: what is cut is ASCII by then.
pub mod Valid
use Prim.Native.Char.{Char, code}
use Prim.Native.String.{len, ◌++◌ as join}
use claude_gateway.Prelude.{
  ℕ, zero, suc, ◌-◌, String, Bool, true, false, not, ◌&&◌, ◌||◌, Option, none, some, ltb, leb, ◌==◌,
  str_eq, if◌then◌else◌,
}
use claude_gateway.Json.{Members, text, get, put, as_text}

abbrev pub is_alphanumeric : Char → Bool
is_alphanumeric c =
    leb b'a' (code c) && leb (code c) b'z'
    || leb b'A' (code c) && leb (code c) b'Z'
    || leb b'0' (code c) && leb (code c) b'9'

-- A character that an identifier may have; that of a server tool has no hyphen.
abbrev pub is_allowed : Bool → Char → Bool
is_allowed server c = is_alphanumeric c || code c == b'_' || not server && code c == b'-'

unfoldable pub all_allowed : Bool → String → Bool
all_allowed server String.[] = true
all_allowed server (String.◌∷◌ c s) = is_allowed server c && all_allowed server s

-- The rest of a text after a prefix.
unfoldable pub after_prefix : String → String → Option String
after_prefix String.[] s = some s
after_prefix (String.◌∷◌ c p) String.[] = none
after_prefix (String.◌∷◌ c p) (String.◌∷◌ d s) = if code c == code d then after_prefix p s else none

unfoldable pub has_prefix : String → String → Bool
unfolding after_prefix
has_prefix p s = elim (after_prefix p s) [ none ↦ false | some rest ↦ true ]

abbrev pub server_prefix : String
server_prefix = "srvtoolu_"

abbrev pub is_empty : String → Bool
is_empty s = str_eq s ""

abbrev pub max_length : ℕ
max_length = 64

unfoldable pub valid_tool_use_id : String → Bool → Bool
valid_tool_use_id id server =
    if is_empty id || ltb max_length (len id)
    then false
    else if server
    then elim (after_prefix server_prefix id) [
      | none ↦ false
      | some rest ↦ not (is_empty rest) && all_allowed true rest
    ]
    else all_allowed false id

unfoldable pub cleaned : Bool → String → String
cleaned server String.[] = ""
cleaned server (String.◌∷◌ c s) =
    String.◌∷◌ (if is_allowed server c then c else "_") (cleaned server s)

abbrev pub is_underscore : Char → Bool
is_underscore c = code c == b'_'

unfoldable pub trim_start : String → String
trim_start String.[] = ""
trim_start (String.◌∷◌ c s) = if is_underscore c then trim_start s else String.◌∷◌ c s

unfoldable pub trim_end : String → String
trim_end String.[] = ""
trim_end (String.◌∷◌ c s) =
    let rest = trim_end s in if is_empty rest && is_underscore c then "" else String.◌∷◌ c rest

unfoldable pub take : ℕ → String → String
take zero s = ""
take (suc n) String.[] = ""
take (suc n) (String.◌∷◌ c s) = String.◌∷◌ c (take n s)

abbrev pub prefix_of : Bool → String
prefix_of server = if server then server_prefix else ""

-- What follows the server prefix, where there is one.
abbrev pub without_prefix : Bool → String → String
without_prefix server id =
    if server then elim (after_prefix server_prefix id) [ none ↦ id | some rest ↦ rest ] else id

abbrev pub or_tool : String → String
or_tool base = if is_empty base then "tool" else base

unfoldable pub base_of : String → Bool → String
base_of id server = or_tool (trim_end (trim_start (cleaned server (without_prefix server id))))

module _ (digest : String → String) where
  abbrev pub suffix_of : String → String
  suffix_of id = join "_" (digest id)

  unfoldable pub sanitize_tool_use_id : String → Bool → String
  sanitize_tool_use_id id server =
      if valid_tool_use_id id server
      then id
      else join (prefix_of server) (
          join (take (max_length - len (prefix_of server) - len (suffix_of id)) (base_of id server))
            (suffix_of id))

  -- The identifier of a tool call, of a call's own type.
  unfoldable pub normalize_id : Members → Members
  normalize_id block = elim (get "id" block) [
    | text id ↦
        let kind = as_text (get "type" block) in
        let server = str_eq kind "server_tool_use" in
        if str_eq kind "tool_use" || server
        then put "id" (text (sanitize_tool_use_id id server)) block
        else block
    | _ ↦ block
  ]

  -- The reference of a result to its call.
  unfoldable pub normalize_reference : Members → Members
  normalize_reference block = elim (get "tool_use_id" block) [
    | text id ↦
        put "tool_use_id" (text (sanitize_tool_use_id id (has_prefix server_prefix id))) block
    | _ ↦ block
  ]

  unfoldable pub normalize_tool_id_block : Members → Members
  normalize_tool_id_block block = normalize_reference (normalize_id block)
