-- ===== src/Stream/Blocks.antt =====
-- The tool-call blocks of a translated stream, `openAIToolStreamBlock`, and the map from the
-- upstream's index to them.
use claude_gateway.Prelude.{
  ℕ, ◌≡◌, refl, String, Bool, true, false, Option, none, some, List, [], ◌∷◌, if◌then◌else◌, arith,
  ==_iff, ap,
}
use claude_gateway.Json.{ℤ, pos, negsuc, same}

pub record Tool : Type 0 where
  pub argument_bytes : ℕ
  pub id : String
  pub name : String
  pub block_index : ℕ
  pub started : Bool
  pub closed : Bool
  pub pending_args : List String
  pub argument_fragments : List String

abbrev pub new_tool : Tool
new_tool = record {
  argument_bytes = 0;
  id = "";
  name = "";
  block_index = 0;
  started = false;
  closed = false;
  pending_args = [];
  argument_fragments = [];
}

abbrev pub Tools : Type 0
Tools = List (ℤ × Tool)

abbrev pub find : ℤ → Tools → Option Tool
find k [] = none
find k ((j, b) ∷ m) = if same j k then some b else find k m

abbrev pub store : ℤ → Tool → Tools → Tools
store k b [] = (k, b) ∷ []
store k b ((j, c) ∷ m) = if same j k then (k, b) ∷ m else (j, c) ∷ store k b m

pub same_refl : (k : ℤ) → same k k ≡ true
same_refl (pos a) = ground arith
same_refl (negsuc a) = ground arith

pub same→eq : (j k : ℤ) → same j k ≡ true → j ≡ k
same→eq (pos a) (pos b) h = ap pos ((==_iff a b).0 h)
same→eq (negsuc a) (negsuc b) h = ap negsuc ((==_iff a b).0 h)
same→eq (pos a) (negsuc b) h = ground arith
same→eq (negsuc a) (pos b) h = ground arith

pub find-store :
    (k j : ℤ) (b : Tool) (m : Tools)
    → find j (store k b m) ≡ (if same k j then some b else find j m)
find-store k j b [] = refl
find-store k j b ((i, c) ∷ m) =
    ground
      (arith, find-store k j b m, same→eq k j, same→eq i k, same→eq i j, same_refl k, same_refl j)
