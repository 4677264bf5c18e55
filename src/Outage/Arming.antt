-- ===== src/Outage/Arming.antt =====
-- When the paid fallback is armed, and for how long.
use claude_gateway.Prelude.{
  Bool, if◌then◌else◌, sym, subst, ℕ, ◌+◌, suc, ◌≤◌, ◌<◌, ◌≡◌, refl, false, List, [], ◌∷◌, ◌++◌,
  keep, length, length-append, leb, arith,
}
use claude_gateway.Outage.{
  Settings, Outage, outage_window, active_time, minimum, recent, observe_failure, clear_failures,
}

-- Failures at the given times, in order, from a state; the answer of the last one.
unfoldable pub fails : Settings → List ℕ → Outage → Outage × Bool
fails c [] o = (o, false)
fails c (t ∷ []) o = observe_failure c t o
fails c (t ∷ u ∷ ts) o = fails c (u ∷ ts) (observe_failure c t o).0

-- The times grow from `lo` and do not pass `hi`.
abbrev pub Within : ℕ → ℕ → List ℕ → Type 0
Within lo hi [] = lo ≤ hi
Within lo hi (t ∷ ts) = (lo ≤ t) × Within t hi ts

-- The last of the times.
abbrev pub newest : ℕ → List ℕ → ℕ
newest from [] = from
newest from (t ∷ ts) = newest t ts

-- The answer, and until when the fallback is armed.
abbrev Arms : Settings → ℕ → ℕ → ℕ → Outage × Bool → Type 0
Arms c count until before r =
    (r.1 ≡ leb (minimum c) count)
    × (r.0.active_until ≡ (if leb (minimum c) count then until + active_time c else before))

-- All signals lie in a window that is still open at `hi`.
abbrev Young : ℕ → List ℕ → Type 0
Young lo [] = Unit
Young lo (t ∷ ts) = (lo ≤ t) × Young lo ts

Young-snoc : (lo t : ℕ) (ts : List ℕ) → lo ≤ t → Young lo ts → Young lo (ts ++ t ∷ [])
Young-snoc lo t [] h y = (h, tt)
Young-snoc lo t (u ∷ ts) h y = (y.0, Young-snoc lo t ts h y.1)

keep-Young :
    (c : Settings) (lo now : ℕ) (ts : List ℕ)
    → now ≤ lo + outage_window c
    → Young lo ts
    → keep (λ t. leb now (t + outage_window c)) ts ≡ ts
keep-Young c lo now [] h y = refl
keep-Young c lo now (t ∷ ts) h y = ground (arith, y, keep-Young c lo now ts h y.1)

Within-le : (lo hi : ℕ) (ts : List ℕ) → Within lo hi ts → lo ≤ hi
Within-le lo hi [] h = h
Within-le lo hi (t ∷ ts) h = omega (arith, h.0, Within-le t hi ts h.1)

-- A failure inside the window adds one signal.
recent-Young :
    (c : Settings) (lo t : ℕ) (signals : List ℕ)
    → lo ≤ t
    → t ≤ lo + outage_window c
    → Young lo signals
    → (length (recent c t signals) ≡ suc (length signals)) × Young lo (recent c t signals)
unfolding recent
recent-Young c lo t signals low young_enough y =
    let same = keep-Young c lo t signals young_enough y in
    rw same (omega (arith, length-append signals (t ∷ [])), Young-snoc lo t signals low y)

fails_count :
    (c : Settings) (lo from hi : ℕ) (ts : List ℕ) (o : Outage)
    → lo ≤ from
    → hi ≤ lo + outage_window c
    → o.active_until ≤ from
    → Young lo o.signals
    → Within from hi ts
    → 0 < length ts
    → length o.signals + length ts ≤ minimum c
    → Arms c (length o.signals + length ts) (newest from ts) o.active_until (fails c ts o)
unfolding fails observe_failure
fails_count c lo from hi [] o low late idle y w some_failure few = ground arith
fails_count c lo from hi (t ∷ []) o low late idle y w some_failure few =
    ground (arith, w, recent-Young c lo t o.signals (omega (arith, w.0)) (omega (arith, w.1)) y)
fails_count c lo from hi (t ∷ u ∷ ts) o low late idle y w some_failure few =
    let t_late = Within-le t hi (u ∷ ts) w.1 in
    let (one_more, young) =
      recent-Young c lo t o.signals (omega (arith, w.0)) (omega (arith, t_late)) y in
    let next = record o { signals = recent c t o.signals } in
    let counted : (observe_failure c t o).0 ≡ next = ground (arith, w.0, one_more, few) in
    let later =
      fails_count c lo t hi (u ∷ ts) next (omega (arith, w.0)) late (omega (arith, w.0)) young w.1
        (omega arith) (omega (arith, one_more, few)) in
    let same_count : length o.signals + length (t ∷ u ∷ ts)
        ≡ length next.signals + length (u ∷ ts) =
      (omega (arith, one_more)) in
    subst
      (λ p.
        Arms c (length o.signals + length (t ∷ u ∷ ts)) (newest u ts) o.active_until
          (fails c (u ∷ ts) p))
      (sym counted)
      (subst (λ n. Arms c n (newest u ts) o.active_until (fails c (u ∷ ts) next)) (sym same_count)
        later)

-- From a cleared state, failures whose times are in order and lie in one window arm the paid
-- fallback with the failure that makes their number the minimum, from then on for the active time;
-- with fewer of them it is not armed.
pub fails-clear_failures :
    (c : Settings) (lo hi : ℕ) (ts : List ℕ) (o : Outage)
    → hi ≤ lo + outage_window c
    → Within lo hi ts
    → 0 < length ts
    → length ts ≤ minimum c
    → let (after, answer) = fails c ts (clear_failures o) in
      (answer ≡ leb (minimum c) (length ts))
      × (after.active_until
          ≡ (if leb (minimum c) (length ts) then newest lo ts + active_time c else 0))
unfolding clear_failures
fails-clear_failures c lo hi ts o late w some_failure few =
    let none_before : 0 + length ts ≡ length ts = omega arith in
    subst (λ n. Arms c n (newest lo ts) 0 (fails c ts (clear_failures o))) none_before
      (fails_count c lo lo hi ts (clear_failures o) (omega arith) late (omega arith) tt w
        some_failure (omega (arith, few)))
