-- ===== src/ToolIds/Valid.antt =====
-- The identifiers that `sanitizeToolUseID` of anthropic-proxy.go makes.
use Prim.Native.Nat.{compare, Ordering}
use Prim.Native.Char.{Char, code, len_utf8, len_utf8_def, width}
use Prim.Native.String.append
use Prim.Native.String.len
use Prim.Native.String.{len, ◌++◌ as join}
use text.Mathlib.TextPositions.{len-append}
use text.Mathlib.TextEquality.{Char-path}
use claude_gateway.Prelude.{
  ℕ, zero, suc, ◌+◌, ◌-◌, ◌≤◌, String, Bool, true, false, ◌&&◌, some, ◌≡◌, refl, ap, ◌∙◌, eq_iff,
  if_both, arith, Bool-cases, inl, inr, ◌⊎◌, sym, Option-cases,
}
use claude_gateway.ToolIds.{
  is_allowed, all_allowed, after_prefix, server_prefix, is_empty, max_length, valid_tool_use_id,
  cleaned, is_underscore, trim_start, trim_end, take, prefix_of, without_prefix, base_of, suffix_of,
  sanitize_tool_use_id,
}

allowed_byte : (server : Bool) (c : Char) → is_allowed server c ≡ true → len_utf8 c ≡ 1
allowed_byte server c h =
    let small : compare (code c) 128 ≡ Ordering.lt = ground arith in
    len_utf8_def c ∙ ap (λ o. width o (compare (code c) 2048) (compare (code c) 65536)) small

both : (a b : Bool) → (a && b) ≡ true → (a ≡ true) × (b ≡ true)
both a b h = ground arith

len-take : (server : Bool) (n : ℕ) (s : String) → all_allowed server s ≡ true → len (take n s) ≤ n
unfolding take all_allowed
len-take server zero s h = omega arith
len-take server (suc n) String.[] h = omega arith
len-take server (suc n) (String.◌∷◌ c s) h =
    let (first, rest) = both (is_allowed server c) (all_allowed server s) h in
    omega (arith, len.cons c (take n s), allowed_byte server c first, len-take server n s rest)

take_allowed :
    (server : Bool) (n : ℕ) (s : String)
    → all_allowed server s ≡ true
    → all_allowed server (take n s) ≡ true
unfolding take all_allowed
take_allowed server zero s h = refl
take_allowed server (suc n) String.[] h = refl
take_allowed server (suc n) (String.◌∷◌ c s) h =
    let (first, rest) = both (is_allowed server c) (all_allowed server s) h in
    ground (arith, first, take_allowed server n s rest)

join_allowed :
    (server : Bool) (s t : String)
    → all_allowed server s ≡ true
    → all_allowed server t ≡ true
    → all_allowed server (join s t) ≡ true
unfolding all_allowed
join_allowed server String.[] t h g = ap (all_allowed server) (append.nil t) ∙ g
join_allowed server (String.◌∷◌ c s) t h g =
    let (first, rest) = both (is_allowed server c) (all_allowed server s) h in
    ap (all_allowed server) (append.cons c s t)
    ∙ ground (arith, first, join_allowed server s t rest g)

cleaned_allowed : (server : Bool) (s : String) → all_allowed server (cleaned server s) ≡ true
unfolding cleaned all_allowed
cleaned_allowed server String.[] = refl
cleaned_allowed server (String.◌∷◌ c s) =
    if_both (λ d. (is_allowed server d && all_allowed server (cleaned server s)) ≡ true)
      (is_allowed server c) c "_" (λ h. ground (arith, h, cleaned_allowed server s))
      (λ h. ground (arith, cleaned_allowed server s))

trim_start_allowed :
    (server : Bool) (s : String)
    → all_allowed server s ≡ true
    → all_allowed server (trim_start s) ≡ true
unfolding trim_start all_allowed
trim_start_allowed server String.[] h = refl
trim_start_allowed server (String.◌∷◌ c s) h =
    if_both (λ t. all_allowed server t ≡ true) (is_underscore c) (trim_start s) (String.◌∷◌ c s)
      (λ e. trim_start_allowed server s (both (is_allowed server c) (all_allowed server s) h).1)
      (λ e. h)

trim_end_allowed :
    (server : Bool) (s : String)
    → all_allowed server s ≡ true
    → all_allowed server (trim_end s) ≡ true
unfolding trim_end all_allowed
trim_end_allowed server String.[] h = refl
trim_end_allowed server (String.◌∷◌ c s) h =
    let (first, rest) = both (is_allowed server c) (all_allowed server s) h in
    if_both (λ t. all_allowed server t ≡ true) (is_empty (trim_end s) && is_underscore c) ""
      (String.◌∷◌ c (trim_end s)) (λ e. refl)
      (λ e. ground (arith, first, trim_end_allowed server s rest))

trimmed_allowed :
    (server : Bool) (s : String)
    → all_allowed server (trim_end (trim_start (cleaned server s))) ≡ true
trimmed_allowed server s =
    trim_end_allowed server (trim_start (cleaned server s))
      (trim_start_allowed server (cleaned server s) (cleaned_allowed server s))

tool_allowed : (server : Bool) → all_allowed server "tool" ≡ true
unfolding all_allowed
tool_allowed true = refl
tool_allowed false = refl

base_of_allowed : (id : String) (server : Bool) → all_allowed server (base_of id server) ≡ true
unfolding base_of
base_of_allowed id server =
    let base = trim_end (trim_start (cleaned server (without_prefix server id))) in
    if_both (λ t. all_allowed server t ≡ true) (is_empty base) "tool" base
      (λ e. tool_allowed server) (λ e. trimmed_allowed server (without_prefix server id))

after_prefix-join : (p s : String) → after_prefix p (join p s) ≡ some s
unfolding after_prefix
after_prefix-join String.[] s = ap (λ t. some t) (append.nil s)
after_prefix-join (String.◌∷◌ c p) s =
    ap (after_prefix (String.◌∷◌ c p)) (append.cons c p s) ∙ ground (arith, after_prefix-join p s)

not_empty : (s : String) → 1 ≤ len s → is_empty s ≡ false
not_empty s h = elim (Bool-cases (is_empty s)) [
  | inl blank ↦
      let same : s ≡ "" = (eq_iff s "").0 blank in
      let none_left : len s ≡ 0 = ap len same ∙ len.nil in absurd (omega (arith, h, none_left))
  | inr other ↦ other
]

relaxed_char : (c : Char) → is_allowed true c ≡ true → is_allowed false c ≡ true
relaxed_char c h = ground arith

relaxed : (s : String) → all_allowed true s ≡ true → all_allowed false s ≡ true
unfolding all_allowed
relaxed String.[] h = refl
relaxed (String.◌∷◌ c s) h =
    let (first, rest) = both (is_allowed true c) (all_allowed true s) h in
    ground (arith, relaxed_char c first, relaxed s rest)

valid_plain :
    (s : String)
    → 1 ≤ len s
    → len s ≤ max_length
    → all_allowed false s ≡ true
    → valid_tool_use_id s false ≡ true
unfolding valid_tool_use_id
valid_plain s some_left short fine = ground (arith, not_empty s some_left, short, fine)

valid_server :
    (rest : String)
    → 1 ≤ len rest
    → 9 + len rest ≤ max_length
    → all_allowed true rest ≡ true
    → valid_tool_use_id (join server_prefix rest) true ≡ true
unfolding valid_tool_use_id
valid_server rest some_left short fine =
    let whole : len (join server_prefix rest) ≡ 9 + len rest = len-append server_prefix rest in
    ground (
      arith,
      whole,
      not_empty (join server_prefix rest) (omega (arith, whole)),
      not_empty rest some_left,
      after_prefix-join server_prefix rest,
      short,
      fine,
    )

-- A digest of twelve letters and digits.
pub record IsDigest (d : String) : Type 0 where
  pub long : len d ≡ 12
  pub allowed : all_allowed true d ≡ true

module _ (digest : String → String) (hex : (id : String) → IsDigest (digest id)) where
  suffix_long : (id : String) → len (suffix_of digest id) ≡ 13
  suffix_long id = len-append "_" (digest id) ∙ ap (λ n. 1 + n) ((hex id).long)

  suffix_allowed : (id : String) → all_allowed true (suffix_of digest id) ≡ true
  unfolding all_allowed
  suffix_allowed id = join_allowed true "_" (digest id) refl ((hex id).allowed)

  -- What follows the prefix of a renamed identifier.
  rest_of : Bool → ℕ → String → String
  rest_of server room id = join (take room (base_of id server)) (suffix_of digest id)

  rest_long :
      (server : Bool) (room : ℕ) (id : String)
      → (1 ≤ len (rest_of server room id)) × (len (rest_of server room id) ≤ room + 13)
  unfolding rest_of
  rest_long server room id =
      let whole = len-append (take room (base_of id server)) (suffix_of digest id) in
      let cut = len-take server room (base_of id server) (base_of_allowed id server) in
      (omega (arith, whole, suffix_long id), omega (arith, whole, cut, suffix_long id))

  renamed_valid :
      (id : String) (server : Bool)
      → valid_tool_use_id
          (join (prefix_of server) (
            join
              (take
                (max_length - len (prefix_of server) - len (suffix_of digest id))
                (base_of id server))
              (suffix_of digest id)))
          server
        ≡ true
  unfolding rest_of
  renamed_valid id false =
      let room = max_length - len "" - len (suffix_of digest id) in
      let small : room ≡ 51 = omega (arith, suffix_long id, len.nil) in
      let (some_left, short) = rest_long false room id in
      ap (λ s. valid_tool_use_id s false) (append.nil (rest_of false room id))
      ∙ valid_plain (rest_of false room id) some_left (omega (arith, short, small)) (
          join_allowed false (take room (base_of id false)) (suffix_of digest id)
            (take_allowed false room (base_of id false) (base_of_allowed id false))
            (relaxed (suffix_of digest id) (suffix_allowed id)))
  renamed_valid id true =
      let room = max_length - len server_prefix - len (suffix_of digest id) in
      let small : room ≡ 42 = omega (arith, suffix_long id) in
      let (some_left, short) = rest_long true room id in
      valid_server (rest_of true room id) some_left (omega (arith, short, small)) (
        join_allowed true (take room (base_of id true)) (suffix_of digest id)
          (take_allowed true room (base_of id true) (base_of_allowed id true)) (suffix_allowed id))

-- The characters of identifiers, by their codes: digits, capital and small letters and `_`; `-`
-- where the call is not a server's.
abbrev pub IsPlain : Bool → ℕ → Type 0
IsPlain server n =
    ((48 ≤ n) × (n ≤ 57))
    ⊎ (((65 ≤ n) × (n ≤ 90))
        ⊎ (((97 ≤ n) × (n ≤ 122)) ⊎ ((n ≡ 95) ⊎ ((n ≡ 45) × (server ≡ false)))))

abbrev pub HasOnly : Bool → String → Type 0
HasOnly server String.[] = Unit
HasOnly server (String.◌∷◌ c s) = IsPlain server (code c) × HasOnly server s

-- What an upstream accepts as the identifier of a call: some of these characters, 64 bytes at most
-- in all, and for a server tool after the prefix "srvtoolu_".
abbrev pub IsAccepted : Bool → String → Type 0
IsAccepted false s = (1 ≤ len s) × (len s ≤ 64) × HasOnly false s
IsAccepted true s =
    (len s ≤ 64)
    × ((rest : String) × (s ≡ join "srvtoolu_" rest) × (1 ≤ len rest) × HasOnly true rest)

is_allowed-IsPlain :
    (server : Bool) (c : Char) → is_allowed server c ≡ true → IsPlain server (code c)
is_allowed-IsPlain server c h = ground arith

all_allowed-HasOnly : (server : Bool) (s : String) → all_allowed server s ≡ true → HasOnly server s
unfolding all_allowed
all_allowed-HasOnly server String.[] h = tt
all_allowed-HasOnly server (String.◌∷◌ c s) h =
    let (first, rest) = both (is_allowed server c) (all_allowed server s) h in
    (is_allowed-IsPlain server c first, all_allowed-HasOnly server s rest)

some_byte :
    (server : Bool) (s : String) → all_allowed server s ≡ true → is_empty s ≡ false → 1 ≤ len s
unfolding all_allowed
some_byte server String.[] h filled = ground arith
some_byte server (String.◌∷◌ c s) h filled =
    let first = (both (is_allowed server c) (all_allowed server s) h).0 in
    omega (arith, len.cons c s, allowed_byte server c first)

after_prefix-join_back : (p s rest : String) → after_prefix p s ≡ some rest → s ≡ join p rest
unfolding after_prefix
after_prefix-join_back String.[] s rest h =
    (let same : s ≡ rest = cc in same ∙ sym (append.nil rest))
after_prefix-join_back (String.◌∷◌ c p) String.[] rest h = cc
after_prefix-join_back (String.◌∷◌ c p) (String.◌∷◌ d s) rest h =
    let same_char : code c ≡ code d = ground arith in
    let later : after_prefix p s ≡ some rest = ground arith in
    ap (λ x. String.◌∷◌ x s) (sym (Char-path c d same_char))
    ∙ ap (λ t. String.◌∷◌ c t) (after_prefix-join_back p s rest later)
    ∙ sym (append.cons c p rest)

short_enough : (s : String) (server : Bool) → valid_tool_use_id s server ≡ true → len s ≤ 64
unfolding valid_tool_use_id
short_enough s server h = ground arith

plain_rest : (s : String) → valid_tool_use_id s false ≡ true → (1 ≤ len s) × HasOnly false s
unfolding valid_tool_use_id
plain_rest s h =
    let filled : is_empty s ≡ false = ground arith in
    let fine : all_allowed false s ≡ true = ground arith in
    (some_byte false s fine filled, all_allowed-HasOnly false s fine)

server_rest :
    (s : String)
    → valid_tool_use_id s true ≡ true
    → (rest : String) × (s ≡ join "srvtoolu_" rest) × (1 ≤ len rest) × HasOnly true rest
unfolding valid_tool_use_id
server_rest s h = elim (Option-cases (after_prefix server_prefix s)) [
  | inl missing ↦ absurd (ground (arith, missing))
  | inr (rest, found) ↦
      let filled : is_empty rest ≡ false = ground (arith, found) in
      let fine : all_allowed true rest ≡ true = ground (arith, found) in
      (
        rest,
        after_prefix-join_back server_prefix s rest found,
        some_byte true rest fine filled,
        all_allowed-HasOnly true rest fine,
      )
]

valid_tool_use_id-IsAccepted :
    (s : String) (server : Bool) → valid_tool_use_id s server ≡ true → IsAccepted server s
valid_tool_use_id-IsAccepted s false h =
    let (filled, fine) = plain_rest s h in (filled, short_enough s false h, fine)
valid_tool_use_id-IsAccepted s true h = (short_enough s true h, server_rest s h)

-- Whatever the identifier, what it is renamed to has 1 to 64 bytes, all of them digits, letters, `_`
-- or, where the tool is not a server's, `-`; for a server tool it is "srvtoolu_" and at least one
-- more of these characters. The program's own check accepts it, and renaming it once more changes
-- nothing. The digest has twelve letters, digits or `_`.
pub valid-sanitize_tool_use_id :
    (digest : String → String)
    → ((id : String) → IsDigest (digest id))
    → (id : String) (server : Bool)
    → IsAccepted server (sanitize_tool_use_id digest id server)
      × (valid_tool_use_id (sanitize_tool_use_id digest id server) server ≡ true)
      × (sanitize_tool_use_id digest (sanitize_tool_use_id digest id server) server
          ≡ sanitize_tool_use_id digest id server)
unfolding sanitize_tool_use_id
valid-sanitize_tool_use_id digest hex id server =
    let valid = sanitized_valid in
    (
      valid_tool_use_id-IsAccepted (sanitize_tool_use_id digest id server) server valid,
      valid,
      kept (sanitize_tool_use_id digest id server) valid,
    )
  where
    sanitized_valid : valid_tool_use_id (sanitize_tool_use_id digest id server) server ≡ true
    sanitized_valid =
        if_both (λ s. valid_tool_use_id s server ≡ true) (valid_tool_use_id id server) id _ (λ h. h)
          (λ h. renamed_valid digest hex id server)

    kept :
        (s : String) → valid_tool_use_id s server ≡ true → sanitize_tool_use_id digest s server ≡ s
    kept s h = ground (arith, h)
