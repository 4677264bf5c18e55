-- ===== src/Stream/Chains.antt =====
-- The blocks that a translated stream holds open, against its tools: the tools in their order hold
-- the blocks of the monitor, in the same order, with growing numbers.
use claude_gateway.Prelude.{
  ℕ, suc, ◌≤◌, ◌<◌, Bool, true, false, some, List, [], ◌∷◌, ◌++◌, ◌≡◌, ◌⊎◌, refl, sym, ap, ◌∙◌,
  if◌then◌else◌, Bool-cases, inl, inr, arith, ==_iff,
}
use claude_gateway.Json.{ℤ, same}
use claude_gateway.Stream.Blocks.{Tool, Tools, find, store, find-store, same→eq}
use claude_gateway.Stream.Monitor.{Kind, tool_block, kind_at, shut}

-- The tool `k` holds the open block `i`.
pub record Holds (t : Tools) (k : ℤ) (i : ℕ) : Type 0 where
  pub tool : Tool
  pub found : find k t ≡ some tool
  pub begun : tool.started ≡ true
  pub open_still : tool.closed ≡ false
  pub at : tool.block_index ≡ i

-- The tools `ks` hold the blocks `es`, whose numbers grow from `lo` and stay below `hi`.
abbrev pub Chain : Tools → ℕ → List ℤ → List (ℕ × Kind) → ℕ → Type 0
Chain t lo [] [] hi = lo ≤ hi
Chain t lo [] (e ∷ es) hi = ⊥
Chain t lo (k ∷ ks) [] hi = ⊥
Chain t lo (k ∷ ks) (e ∷ es) hi =
    Holds t k e.0 × (e.1 ≡ tool_block) × (lo ≤ e.0) × Chain t (suc e.0) ks es hi

abbrev pub Among : ℤ → List ℤ → Type 0
Among k [] = ⊥
Among k (j ∷ ks) = (j ≡ k) ⊎ Among k ks

pub Among-snoc : (k j : ℤ) (ks : List ℤ) → (j ≡ k) ⊎ Among k ks → Among k (ks ++ j ∷ [])
Among-snoc k j [] h = ground arith
Among-snoc k j (i ∷ ks) (inl here) = inr (Among-snoc k j ks (inl here))
Among-snoc k j (i ∷ ks) (inr (inl first)) = inl first
Among-snoc k j (i ∷ ks) (inr (inr later)) = inr (Among-snoc k j ks (inr later))

pub Chain-bounds :
    (t : Tools) (lo : ℕ) (ks : List ℤ) (es : List (ℕ × Kind)) (hi : ℕ)
    → Chain t lo ks es hi
    → lo ≤ hi
Chain-bounds t lo [] [] hi c = c
Chain-bounds t lo [] (e ∷ es) hi c = elim c [ ]
Chain-bounds t lo (k ∷ ks) [] hi c = elim c [ ]
Chain-bounds t lo (k ∷ ks) (e ∷ es) hi (h, kind, low, rest) =
    omega (arith, low, Chain-bounds t (suc e.0) ks es hi rest)

pub Chain-wider :
    (t : Tools) (lo : ℕ) (ks : List ℤ) (es : List (ℕ × Kind)) (hi top : ℕ)
    → hi ≤ top
    → Chain t lo ks es hi
    → Chain t lo ks es top
Chain-wider t lo [] [] hi top le c = omega arith
Chain-wider t lo [] (e ∷ es) hi top le c = c
Chain-wider t lo (k ∷ ks) [] hi top le c = c
Chain-wider t lo (k ∷ ks) (e ∷ es) hi top le (h, kind, low, rest) =
    (h, kind, low, Chain-wider t (suc e.0) ks es hi top le rest)

-- What a store under `j` may do to a tool: keep one that has begun where it is.
abbrev pub KeepsBlock : Tools → ℤ → Tool → Type 0
KeepsBlock t j b =
    (c : Tool)
    → find j t ≡ some c
    → c.started ≡ true
    → (b.started ≡ true) × (b.closed ≡ c.closed) × (b.block_index ≡ c.block_index)

pub Holds-store :
    (t : Tools) (j : ℤ) (b : Tool) (k : ℤ) (i : ℕ)
    → KeepsBlock t j b
    → Holds t k i
    → Holds (store j b t) k i
Holds-store t j b k i keeps h = elim (Bool-cases (same j k)) [
  | inl alike ↦
      let kept = keeps h.tool (ap (λ z. find z t) (same→eq j k alike) ∙ h.found) h.begun in
      record {
        tool = b;
        found = find-store j k b t ∙ ap (λ c. if c then some b else find k t) alike;
        begun = kept.0;
        open_still = kept.1 ∙ h.open_still;
        at = kept.2 ∙ h.at;
      }
  | inr apart_keys ↦ record {
    tool = h.tool;
    found = find-store j k b t ∙ ap (λ c. if c then some b else find k t) apart_keys ∙ h.found;
    begun = h.begun;
    open_still = h.open_still;
    at = h.at;
  }
]

pub Chain-store :
    (t : Tools) (j : ℤ) (b : Tool) (lo : ℕ) (ks : List ℤ) (es : List (ℕ × Kind)) (hi : ℕ)
    → KeepsBlock t j b
    → Chain t lo ks es hi
    → Chain (store j b t) lo ks es hi
Chain-store t j b lo [] [] hi keeps c = c
Chain-store t j b lo [] (e ∷ es) hi keeps c = c
Chain-store t j b lo (k ∷ ks) [] hi keeps c = c
Chain-store t j b lo (k ∷ ks) (e ∷ es) hi keeps (h, kind, low, rest) =
    (Holds-store t j b k e.0 keeps h, kind, low, Chain-store t j b (suc e.0) ks es hi keeps rest)

-- A tool whose block lies below the chain is not of the chain.
apart :
    (t : Tools) (j k : ℤ) (c : Tool) (i : ℕ)
    → find j t ≡ some c
    → c.block_index < i
    → Holds t k i
    → same j k ≡ false
apart t j k c i found below h = elim (Bool-cases (same j k)) [
  | inr apart_keys ↦ apart_keys
  | inl alike ↦
      let same_tool = sym found ∙ ap (λ z. find z t) (same→eq j k alike) ∙ h.found in
      ground (arith, same_tool, h.at)
]

pub Chain-store-below :
    (t : Tools) (j : ℤ) (b c : Tool) (lo : ℕ) (ks : List ℤ) (es : List (ℕ × Kind)) (hi : ℕ)
    → find j t ≡ some c
    → c.block_index < lo
    → Chain t lo ks es hi
    → Chain (store j b t) lo ks es hi
Chain-store-below t j b c lo [] [] hi found below h = h
Chain-store-below t j b c lo [] (e ∷ es) hi found below h = h
Chain-store-below t j b c lo (k ∷ ks) [] hi found below h = h
Chain-store-below t j b c lo (k ∷ ks) (e ∷ es) hi found below (h, kind, low, rest) =
    let apart_keys = apart t j k c e.0 found (omega (arith, below, low)) h in
    let kept : Holds (store j b t) k e.0 = record {
      tool = h.tool;
      found = find-store j k b t ∙ ap (λ x. if x then some b else find k t) apart_keys ∙ h.found;
      begun = h.begun;
      open_still = h.open_still;
      at = h.at;
    } in
    (
      kept,
      kind,
      low,
      Chain-store-below t j b c (suc e.0) ks es hi found (omega (arith, below, low)) rest,
    )

pub Chain-snoc :
    (t : Tools) (lo : ℕ) (ks : List ℤ) (es : List (ℕ × Kind)) (hi : ℕ) (k : ℤ)
    → Chain t lo ks es hi
    → Holds t k hi
    → Chain t lo (ks ++ k ∷ []) (es ++ (hi, tool_block) ∷ []) (suc hi)
Chain-snoc t lo [] [] hi k c h = (h, refl, c, omega arith)
Chain-snoc t lo [] (e ∷ es) hi k c h = elim c [ ]
Chain-snoc t lo (j ∷ ks) [] hi k c h = elim c [ ]
Chain-snoc t lo (j ∷ ks) (e ∷ es) hi k (g, kind, low, rest) h =
    (g, kind, low, Chain-snoc t (suc e.0) ks es hi k rest h)

-- The block opened last.
pub kind_at-last :
    (t : Tools) (lo : ℕ) (ks : List ℤ) (es : List (ℕ × Kind)) (hi : ℕ) (kind : Kind)
    → Chain t lo ks es hi
    → kind_at hi (es ++ (hi, kind) ∷ []) ≡ some kind
kind_at-last t lo [] [] hi kind c = ground (arith, ==_iff hi hi)
kind_at-last t lo [] (e ∷ es) hi kind c = elim c [ ]
kind_at-last t lo (j ∷ ks) [] hi kind c = elim c [ ]
kind_at-last t lo (j ∷ ks) (e ∷ es) hi kind (g, k, low, rest) = ground (
  arith,
  Chain-bounds t (suc e.0) ks es hi rest,
  kind_at-last t (suc e.0) ks es hi kind rest,
  ==_iff e.0 hi,
)

pub shut-last :
    (t : Tools) (lo : ℕ) (ks : List ℤ) (es : List (ℕ × Kind)) (hi : ℕ) (kind : Kind)
    → Chain t lo ks es hi
    → shut hi (es ++ (hi, kind) ∷ []) ≡ es
shut-last t lo [] [] hi kind c = ground (arith, ==_iff hi hi)
shut-last t lo [] (e ∷ es) hi kind c = elim c [ ]
shut-last t lo (j ∷ ks) [] hi kind c = elim c [ ]
shut-last t lo (j ∷ ks) (e ∷ es) hi kind (g, k, low, rest) = ground (
  arith,
  Chain-bounds t (suc e.0) ks es hi rest,
  shut-last t (suc e.0) ks es hi kind rest,
  ==_iff e.0 hi,
)

-- A tool of the chain is found by the number of its block.
pub kind_at-Chain :
    (t : Tools) (lo : ℕ) (ks : List ℤ) (es : List (ℕ × Kind)) (hi : ℕ) (k : ℤ) (b : Tool)
    → Chain t lo ks es hi
    → Among k ks
    → find k t ≡ some b
    → kind_at b.block_index es ≡ some tool_block
kind_at-Chain t lo [] [] hi k b c among found = elim among [ ]
kind_at-Chain t lo [] (e ∷ es) hi k b c among found = elim c [ ]
kind_at-Chain t lo (j ∷ ks) [] hi k b c among found = elim c [ ]
kind_at-Chain t lo (j ∷ ks) (e ∷ es) hi k b (h, kind, low, rest) (inl here) found =
    let same_tool = sym h.found ∙ ap (λ z. find z t) here ∙ found in
    ground (arith, same_tool, h.at, kind, ==_iff e.0 b.block_index)
kind_at-Chain t lo (j ∷ ks) (e ∷ es) hi k b (h, kind, low, rest) (inr later) found =
    ground (arith, kind, kind_at-Chain t (suc e.0) ks es hi k b rest later found)

kind_at-append :
    (i : ℕ) (es more : List (ℕ × Kind)) (kind : Kind)
    → kind_at i es ≡ some kind
    → kind_at i (es ++ more) ≡ some kind
kind_at-append i [] more kind h = ground arith
kind_at-append i (e ∷ es) more kind h = ground (arith, kind_at-append i es more kind)

pub kind_at-if :
    (b : Bool) (i : ℕ) (es more : List (ℕ × Kind)) (kind : Kind)
    → kind_at i es ≡ some kind
    → kind_at i (if b then es ++ more else es) ≡ some kind
kind_at-if true i es more kind h = kind_at-append i es more kind h
kind_at-if false i es more kind h = h
