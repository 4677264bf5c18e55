-- ===== src/Circuit/Backoff.antt =====
-- Streaks of failures: when a circuit opens, and for how long.
use native.Mathlib.Nat.{pow-suc, add-zero}
use claude_gateway.Prelude.{
  ℕ, zero, suc, ◌+◌, ◌-◌, ◌*◌, ◌^◌, ◌≤◌, min, ltb, if◌then◌else◌, ◌≡◌, refl, subst, List, [], ◌∷◌,
  length, arith,
}
use claude_gateway.Circuit.{
  Circuit, fresh, trip, cooldown, base_cooldown, max_cooldown, failure_window,
}

pub pow_pos : (n : ℕ) → 1 ≤ 2 ^ n
pow_pos zero = omega arith
pow_pos (suc n) = omega (arith, pow-suc 2 n, pow_pos n)

pow_four : (n : ℕ) → 16 ≤ 2 ^ suc (suc (suc (suc n)))
pow_four n = omega (
  arith,
  pow-suc 2 n,
  pow-suc 2 (suc n),
  pow-suc 2 (suc (suc n)),
  pow-suc 2 (suc (suc (suc n))),
  pow_pos n,
)

-- The cooldown doubles from 30 seconds with each opening and stays at five minutes from the
-- fifth opening on.
pub cooldown-eq-min : (n : ℕ) → cooldown n ≡ min (base_cooldown * 2 ^ n) max_cooldown
unfolding cooldown
cooldown-eq-min zero = refl
cooldown-eq-min (suc zero) = refl
cooldown-eq-min (suc (suc zero)) = refl
cooldown-eq-min (suc (suc (suc zero))) = refl
cooldown-eq-min (suc (suc (suc (suc n)))) = ground (arith, pow_four n)

unfoldable pub trips : List ℕ → Circuit → Circuit
trips [] c = c
trips (t ∷ ts) c = trips ts (trip t c)

-- Each failure comes within the window of the one before.
abbrev pub Close : ℕ → List ℕ → Type 0
Close t [] = Unit
Close t (u ∷ us) = (t ≤ u) × (u ≤ t + failure_window) × Close u us

abbrev pub last_of : ℕ → List ℕ → ℕ
last_of t [] = t
last_of t (u ∷ us) = last_of u us

-- What a streak of n failures, the last at `now`, leaves behind.
pub record Streak (n now : ℕ) (c : Circuit) : Type 0 where
  pub failed : c.failures ≡ n
  pub opened : c.opens ≡ n - 1
  pub failed_at : c.last_fail ≡ now
  pub cooling : c.open_until ≡ (if ltb n 2 then 0 else now + cooldown (n - 2))

trip-Streak :
    (n t u : ℕ) (c : Circuit)
    → Streak (suc n) t c
    → t ≤ u
    → u ≤ t + failure_window
    → Streak (suc (suc n)) u (trip u c)
unfolding trip
trip-Streak n t u c s le near = ground arith

trips-Streak :
    (us : List ℕ) (n t : ℕ) (c : Circuit)
    → Streak (suc n) t c
    → Close t us
    → Streak (suc n + length us) (last_of t us) (trips us c)
unfolding trips
trips-Streak [] n t c s k = rw add-zero s
trips-Streak (u ∷ us) n t c s k =
    subst (λ m. Streak m (last_of u us) (trips us (trip u c))) (omega arith)
      (trips-Streak us (suc n) u (trip u c) (trip-Streak n t u c s k.0 k.1) k.2)

-- A first failure, at any time, and further ones, each within the window of the one before: the
-- streak counts them all, and from the second on the circuit stays open from the last failure for
-- the cooldown of the opening.
pub trips-fresh :
    (t : ℕ) (us : List ℕ)
    → Close t us
    → Streak (suc (length us)) (last_of t us) (trips (t ∷ us) fresh)
unfolding trips trip
trips-fresh t us k =
    subst (λ m. Streak m (last_of t us) (trips us (trip t fresh))) (omega arith)
      (trips-Streak us 0 t (trip t fresh) (ground arith) k)
