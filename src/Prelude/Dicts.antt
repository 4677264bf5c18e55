-- ===== src/Prelude/Dicts.antt =====
-- A map with text keys as an association list: the first entry with a key is the one that counts.

use Prim.Native.String.{String}
use text.Mathlib.Text.{◌==◌ as str_eq}
use text.Mathlib.TextEquality.{eq_iff}
use text.Mathlib.TextPositions.{eq_refl}
use mathlib.Core.Path.{◌≡◌, refl}
use mathlib.Core.Bool.{true}
use mathlib.Core.Option.{Option, none, some}
use mathlib.Core.List.{List, [], ◌∷◌}
use native.Mathlib.Omega.{arith}
use claude_gateway.Prelude.Tests.{if◌then◌else◌}

pub str_eq_refl : (k : String) → str_eq k k ≡ true
str_eq_refl k = eq_refl k

module _ {ℓ} {V : Type ℓ} where
  abbrev pub lookup : String → List (String × V) → Option V
  lookup k [] = none
  lookup k ((j, v) ∷ m) = if str_eq j k then some v else lookup k m

  abbrev pub insert : String → V → List (String × V) → List (String × V)
  insert k v [] = (k, v) ∷ []
  insert k v ((j, w) ∷ m) = if str_eq j k then (k, v) ∷ m else (j, w) ∷ insert k v m

  abbrev pub erase : String → List (String × V) → List (String × V)
  erase k [] = []
  erase k ((j, w) ∷ m) = if str_eq j k then erase k m else (j, w) ∷ erase k m

  pub lookup-insert :
      (k j : String) (v : V) (m : List (String × V))
      → lookup j (insert k v m) ≡ (if str_eq k j then some v else lookup j m)
  lookup-insert k j v [] = refl
  lookup-insert k j v ((first, w) ∷ rest) =
      ground (arith, lookup-insert k j v rest, eq_iff first j, eq_iff first k, eq_iff k j)

  pub lookup-erase :
      (k j : String) (m : List (String × V))
      → lookup j (erase k m) ≡ (if str_eq k j then none else lookup j m)
  lookup-erase k j [] = ground arith
  lookup-erase k j ((first, w) ∷ rest) =
      ground (arith, lookup-erase k j rest, eq_iff first k, eq_iff first j, eq_iff k j)
