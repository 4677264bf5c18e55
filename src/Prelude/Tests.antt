-- ===== src/Prelude/Tests.antt =====
-- Boolean tests on the native numbers, the conditional, and splits on computed values.
use Prim.Native.Nat.{ℕ, ◌≤◌, ◌<◌, compare, Ordering}
use mathlib.Core.Path.{◌≡◌, refl}
use mathlib.Core.Logic.{◌↔◌, ◌⊎◌, inl, inr}
use mathlib.Core.Bool.{Bool, true, false}
use mathlib.Core.Option.{Option, none, some}
use native.Mathlib.Omega.{arith}

abbrev pub ltb : ℕ → ℕ → Bool
ltb a b = elim (compare a b) [ Ordering.lt ↦ true | _ ↦ false ]

abbrev pub leb : ℕ → ℕ → Bool
leb a b = elim (compare a b) [ Ordering.gt ↦ false | _ ↦ true ]

infix 50 ◌==◌
abbrev pub ◌==◌ : ℕ → ℕ → Bool
a == b = elim (compare a b) [ Ordering.eq ↦ true | _ ↦ false ]

infix 1 if◌then◌else◌
abbrev pub if◌then◌else◌ {ℓ} : {A : Type ℓ} → Bool → A → A → A
if true then x else y = x
if false then x else y = y

pub ltb→lt : (a b : ℕ) → ltb a b ≡ true → a < b
ltb→lt a b h = ground arith

pub lt→ltb : (a b : ℕ) → a < b → ltb a b ≡ true
lt→ltb a b h = ground arith

pub leb→le : (a b : ℕ) → leb a b ≡ true → a ≤ b
leb→le a b h = ground arith

pub ==_iff : (a b : ℕ) → ((a == b) ≡ true) ↔ (a ≡ b)
==_iff a b = ground arith

pub ruleset tests = (arith, ltb→lt, lt→ltb, leb→le)

pub Bool-cases : (b : Bool) → (b ≡ true) ⊎ (b ≡ false)
Bool-cases true = inl refl
Bool-cases false = inr refl

pub Option-cases {ℓ} : {A : Type ℓ} (o : Option A) → (o ≡ none) ⊎ ((a : A) × (o ≡ some a))
Option-cases none = inl refl
Option-cases (some a) = inr (a, refl)

-- What holds of both branches, each under its condition, holds of the conditional.
pub if_both {ℓ κ} :
    {A : Type ℓ} (P : A → Type κ) (c : Bool) (x y : A)
    → (c ≡ true → P x)
    → (c ≡ false → P y)
    → P (if c then x else y)
if_both P true x y then_case else_case = then_case refl
if_both P false x y then_case else_case = else_case refl

pub option_both {ℓ κ μ} :
    {A : Type ℓ} {B : Type κ} (P : A → Type μ) (o : Option B) (x : A) (f : B → A)
    → P x
    → ((b : B) → P (f b))
    → P (elim o [ none ↦ x | some b ↦ f b ])
option_both P none x f missing found = missing
option_both P (some b) x f missing found = found b

-- The same with the equation in hand.
pub option_split {ℓ κ μ} :
    {A : Type ℓ} {B : Type κ} (P : A → Type μ) (o : Option B) (x : A) (f : B → A)
    → (o ≡ none → P x)
    → ((b : B) → o ≡ some b → P (f b))
    → P (elim o [ none ↦ x | some b ↦ f b ])
option_split P none x f missing found = missing refl
option_split P (some b) x f missing found = found b refl
