-- ===== src/Json.antt =====
-- Decoded JSON, as `json.Unmarshal` gives it to a `map[string]any` or an `any`, and the assertions
-- on it of anthropic-proxy.go: `openAINumber` and `unwrapOpenAIEnvelope`. An object is the decoded
-- map, each key once. A number is a whole one, or a fraction that stands for its value cut towards
-- zero; the decoder itself is a parameter of what uses it.
use claude_gateway.Prelude.{
  ℕ, ◌==◌, String, Bool, true, false, Option, none, some, ◌||◌, ◌≡◌, refl, arith, eq_iff, str_eq,
  if◌then◌else◌,
}

pub data ℤ : Type 0 where
  pos : ℕ → ℤ
  negsuc : ℕ → ℤ

-- The equality of map keys.
abbrev pub same : ℤ → ℤ → Bool
same (pos a) (pos b) = a == b
same (negsuc a) (negsuc b) = a == b
same _ _ = false

mutual
  pub data Members : Type 0 where
    no_members : Members
    member : (key : String) → (held : Value) → (rest : Members) → Members

  pub data Elements : Type 0 where
    no_elements : Elements
    element : (first : Value) → (rest : Elements) → Elements

  pub data Value : Type 0 where
    null : Value
    object : Members → Value
    array : Elements → Value
    text : String → Value
    number : ℤ → Value
    fraction : ℤ → Value
    boolean : Bool → Value

-- `raw == "…"`, where `raw` is an `any`.
abbrev pub is_word : String → Value → Bool
is_word w (text s) = str_eq s w
is_word w _ = false

abbrev pub is_null : Value → Bool
is_null null = true
is_null _ = false

-- `_, ok := raw.([]any)`
abbrev pub as_array : Value → Option Elements
as_array (array is) = some is
as_array _ = none

-- What `json.Unmarshal` into a map answers: an error, the nil map of `null`, or a map.
pub data Decoded : Type 0 where
  malformed : Decoded
  nil : Decoded
  decoded : Members → Decoded

-- A missing key reads as nil, which is also what a null reads as.
unfoldable pub get : String → Members → Value
get k no_members = null
get k (member j v fs) = if str_eq j k then v else get k fs

unfoldable pub has : String → Members → Bool
has k no_members = false
has k (member j v fs) = str_eq j k || has k fs

-- `payload[k] = v`
unfoldable pub put : String → Value → Members → Members
put k v no_members = member k v no_members
put k v (member j w rest) = if str_eq j k then member k v rest else member j w (put k v rest)

pub get-put :
    (k j : String) (v : Value) (m : Members)
    → get k (put j v m) ≡ (if str_eq j k then v else get k m)
unfolding get put
get-put k j v no_members = refl
get-put k j v (member i w rest) =
    ground (arith, eq_iff j k, eq_iff i j, eq_iff i k, get-put k j v rest)

pub get-put_other :
    (k j : String) (v : Value) (m : Members) → str_eq j k ≡ false → get k (put j v m) ≡ get k m
get-put_other k j v m other = ground (arith, get-put k j v m)

-- `v, _ := raw.(string)`
abbrev pub as_text : Value → String
as_text (text s) = s
as_text _ = ""

-- `v, _ := raw.([]any)`
abbrev pub as_elements : Value → Elements
as_elements (array is) = is
as_elements _ = no_elements

-- `v, ok := raw.(map[string]any)`
abbrev pub as_object : Value → Option Members
as_object (object fs) = some fs
as_object _ = none

-- The same without `ok`: reading the nil map gives nil.
abbrev pub as_members : Value → Members
as_members (object fs) = fs
as_members _ = no_members

abbrev pub openai_number : Value → Option ℤ
openai_number (number z) = some z
openai_number (fraction z) = some z
openai_number _ = none

unfoldable pub unwrap_openai_envelope : Members → Members
unwrap_openai_envelope payload = elim (as_object (get "data" payload)) [
  | none ↦ payload
  | some data_fields ↦
      if has "choices" data_fields || has "error" data_fields then data_fields else payload
]
