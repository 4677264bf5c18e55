-- ===== src/Filter/Allotted.antt =====
-- The numbers that the written events of a block carry, and that no number stands for two indexes.
use claude_gateway.Prelude.{
  ℕ, suc, ◌<◌, String, Bool, true, false, ◌||◌, Option, none, some, List, [], ◌∷◌, ◌++◌, ◌≡◌, ◌≢◌,
  ◌⊎◌, inl, inr, sym, ap, subst, ◌∙◌, str_eq, ◌==◌, if◌then◌else◌, option_split, Bool-cases, All,
  arith,
}
use claude_gateway.Json.{ℤ, pos, Value, Members, number, get, as_text, openai_number}
use claude_gateway.Filter.{mapped}
use claude_gateway.Stream.Blocks.{same→eq}

-- A written event of a block: whether it starts the block, the upstream's index, and the index that
-- is written.
abbrev pub BlockEvent : Type 0
BlockEvent = Bool × ℤ × Value

abbrev pub block_at : String → ℤ → Members → List BlockEvent
block_at kind i written =
    if str_eq kind "content_block_start"
    then (true, i, get "index" written) ∷ []
    else if str_eq kind "content_block_delta" || str_eq kind "content_block_stop"
    then (false, i, get "index" written) ∷ []
    else []

abbrev pub block_with : Option ℤ → String → Members → List BlockEvent
block_with none kind written = []
block_with (some i) kind written = block_at kind i written

-- What an upstream event and what is written of it say of a block.
abbrev pub block_of : Members → Members → List BlockEvent
block_of payload written =
    block_with (openai_number (get "index" payload)) (as_text (get "type" payload)) written

abbrev pub blocks_of : List (Members × Members) → List BlockEvent
blocks_of [] = []
blocks_of ((payload, written) ∷ rest) = block_of payload written ++ blocks_of rest

-- From the numbers given so far and the next free one: an event that starts a block, and one whose
-- upstream index has no number yet, carries the next free number; any other event carries the
-- number of the last block with its upstream index.
abbrev pub IsRenumbered : List (ℤ × ℕ) → ℕ → List BlockEvent → Type 0
IsRenumbered given next [] = Unit
IsRenumbered given next ((starts, i, v) ∷ ws) = elim (if starts then none else mapped i given) [
  | none ↦ (v ≡ number (pos next)) × IsRenumbered ((i, next) ∷ given) (suc next) ws
  | some n ↦ (v ≡ number (pos n)) × IsRenumbered given next ws
]

-- Events that carry one number are of one upstream index.
abbrev pub Apart : BlockEvent → BlockEvent → Type 0
Apart a b = (a.1 ≡ b.1) ⊎ (a.2 ≢ b.2)

abbrev pub AllApart : List BlockEvent → Type 0
AllApart [] = Unit
AllApart (w ∷ ws) = All (Apart w) ws × AllApart ws

-- Which index a number was given to.
abbrev pub owner : ℕ → List (ℤ × ℕ) → Option ℤ
owner n [] = none
owner n ((i, k) ∷ given) = if k == n then some i else owner n given

pub record IsAllotted (given : List (ℤ × ℕ)) (next : ℕ) : Type 0 where
  pub below : (n : ℕ) (i : ℤ) → owner n given ≡ some i → n < next
  pub owned : (i : ℤ) (n : ℕ) → mapped i given ≡ some n → owner n given ≡ some i

allot :
    (i : ℤ) (given : List (ℤ × ℕ)) (next : ℕ)
    → IsAllotted given next
    → IsAllotted ((i, next) ∷ given) (suc next)
allot i given next v = record {
  below = λ n j h. ground (arith, v.below n j);
  owned = λ j n h. ground (arith, same→eq i j, v.owned j n, v.below n j);
}

number_of : Value → ℕ
number_of (number (pos n)) = n
number_of _ = 0

other_number : (k n : ℕ) → k < n → number (pos k) ≢ number (pos n)
unfolding number_of
other_number k n less same =
    let same_number : k ≡ n = ap number_of same in omega (arith, less, same_number)

-- The first event takes the next free number, or the one that its index has.
IsRenumbered-cases :
    (starts : Bool) (i : ℤ) (v : Value) (ws : List BlockEvent) (given : List (ℤ × ℕ)) (next : ℕ)
    → IsRenumbered given next ((starts, i, v) ∷ ws)
    → ((v ≡ number (pos next)) × IsRenumbered ((i, next) ∷ given) (suc next) ws)
      ⊎ ((n : ℕ) × (mapped i given ≡ some n) × (v ≡ number (pos n)) × IsRenumbered given next ws)
IsRenumbered-cases true i v ws given next r = inl r
IsRenumbered-cases false i v ws given next r =
    option_split
      (λ T.
        T
        → ((v ≡ number (pos next)) × IsRenumbered ((i, next) ∷ given) (suc next) ws)
          ⊎ ((n : ℕ) × (mapped i given ≡ some n)
              × (v ≡ number (pos n))
              × IsRenumbered given next ws))
      (mapped i given) ((v ≡ number (pos next)) × IsRenumbered ((i, next) ∷ given) (suc next) ws)
      (λ n. (v ≡ number (pos n)) × IsRenumbered given next ws) (λ free h. inl h)
      (λ n found h. inr (n, found, h.0, h.1)) r

pub IsRenumbered-free :
    (i : ℤ) (v : Value) (ws : List BlockEvent) (given : List (ℤ × ℕ)) (next : ℕ)
    → mapped i given ≡ none
    → v ≡ number (pos next)
    → IsRenumbered ((i, next) ∷ given) (suc next) ws
    → IsRenumbered given next ((false, i, v) ∷ ws)
IsRenumbered-free i v ws given next free carries r =
    option_split (λ T. T) (mapped i given)
      ((v ≡ number (pos next)) × IsRenumbered ((i, next) ∷ given) (suc next) ws)
      (λ n. (v ≡ number (pos n)) × IsRenumbered given next ws) (λ h. (carries, r)) (λ n has. cc)

pub IsRenumbered-given :
    (i : ℤ) (v : Value) (ws : List BlockEvent) (given : List (ℤ × ℕ)) (n next : ℕ)
    → mapped i given ≡ some n
    → v ≡ number (pos n)
    → IsRenumbered given next ws
    → IsRenumbered given next ((false, i, v) ∷ ws)
IsRenumbered-given i v ws given n next found carries r =
    option_split (λ T. T) (mapped i given)
      ((v ≡ number (pos next)) × IsRenumbered ((i, next) ∷ given) (suc next) ws)
      (λ k. (v ≡ number (pos k)) × IsRenumbered given next ws) (λ missing. cc)
      (λ k has. let one : n ≡ k = cc in (carries ∙ ap (λ m. number (pos m)) one, r))

-- No later event carries a number of another index.
owner-Apart :
    (k : ℕ) (i : ℤ) (starts : Bool) (ws : List BlockEvent) (given : List (ℤ × ℕ)) (next : ℕ)
    → IsAllotted given next
    → owner k given ≡ some i
    → IsRenumbered given next ws
    → All (Apart (starts, i, number (pos k))) ws
owner-Apart k i starts [] given next v mine r = tt
owner-Apart k i starts ((begins, j, w) ∷ ws) given next v mine r =
    elim (IsRenumbered-cases begins j w ws given next r) [
      | inl (carries, rest) ↦ (
        inr (
            subst (λ x. number (pos k) ≢ x) (sym carries) (other_number k next (v.below k i mine))),
        owner-Apart k i starts ws ((j, next) ∷ given) (suc next) (allot j given next v)
            (ground (arith, v.below k i mine)) rest,
      )
      | inr (n, found, carries, rest) ↦ (
        elim (Bool-cases (n == k)) [
          | inl one ↦ inl (ground (arith, one, v.owned j n found, mine))
          | inr two ↦ inr (λ same. absurd (ground (arith, two, ap number_of (same ∙ carries))))
        ],
        owner-Apart k i starts ws given next v mine rest,
      )
    ]

pub renumbered-AllApart :
    (ws : List BlockEvent) (given : List (ℤ × ℕ)) (next : ℕ)
    → IsAllotted given next
    → IsRenumbered given next ws
    → AllApart ws
renumbered-AllApart [] given next v r = tt
renumbered-AllApart ((starts, i, w) ∷ ws) given next v r =
    elim (IsRenumbered-cases starts i w ws given next r) [
      | inl (carries, rest) ↦ (
        subst (λ x. All (Apart (starts, i, x)) ws) (sym carries)
            (owner-Apart next i starts ws ((i, next) ∷ given) (suc next) (allot i given next v)
              (ground arith) rest),
        renumbered-AllApart ws ((i, next) ∷ given) (suc next) (allot i given next v) rest,
      )
      | inr (n, found, carries, rest) ↦ (
        subst (λ x. All (Apart (starts, i, x)) ws) (sym carries)
            (owner-Apart n i starts ws given next v (v.owned i n found) rest),
        renumbered-AllApart ws given next v rest,
      )
    ]
