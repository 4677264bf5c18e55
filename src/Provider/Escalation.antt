-- ===== src/Provider/Escalation.antt =====
-- How a quarantine begins, lengthens and ends.
use native.Mathlib.Nat.{pow-suc, add-zero}
use claude_gateway.Prelude.{
  ℕ, zero, suc, ◌+◌, ◌-◌, ◌*◌, ◌^◌, ◌≤◌, ◌<◌, min, ◌≡◌, refl, subst, ◌⊎◌, String, Bool, true, false,
  List, [], ◌∷◌, length, All, if◌then◌else◌, second, arith,
}
use claude_gateway.Provider.{ProviderState}
use claude_gateway.Provider.Quarantine.{
  Policy, escalate, quarantine_duration, unstable, healthy, idle,
}

pow_pos : (n : ℕ) → 1 ≤ 2 ^ n
pow_pos zero = omega arith
pow_pos (suc n) = omega (arith, pow-suc 2 n, pow_pos n)

min_scaled : (d m x : ℕ) → 1 ≤ x → m ≤ d → min (d * x) m ≡ m
min_scaled d m x h le = grind arith

double_scaled : (d x y : ℕ) → y ≡ x * 2 → d * y ≡ d * 2 * x
double_scaled d x y h = rw h (omega arith)

escalate-eq-min :
    (rounds maximum duration : ℕ)
    → duration ≤ maximum
    → escalate rounds maximum duration ≡ min (duration * 2 ^ rounds) maximum
unfolding escalate
escalate-eq-min zero maximum duration h = omega arith
escalate-eq-min (suc rounds) maximum duration h = ground (
  arith,
  double_scaled duration (2 ^ rounds) (2 ^ suc rounds) (pow-suc 2 rounds),
  escalate-eq-min rounds maximum maximum,
  escalate-eq-min rounds maximum (duration * 2),
  min_scaled maximum maximum (2 ^ rounds) (pow_pos rounds),
  min_scaled (duration * 2) maximum (2 ^ rounds) (pow_pos rounds),
  min_scaled duration maximum (2 ^ suc rounds) (pow_pos (suc rounds)),
)

-- With a base that is at most the maximum the quarantine doubles with each level and stays at
-- the maximum from there on.
pub quarantine_duration-eq-min :
    (p : Policy) (level : ℕ)
    → p.base_seconds ≤ p.max_seconds
    → quarantine_duration p level
      ≡ min (p.base_seconds * second * 2 ^ (level - 1)) (p.max_seconds * second)
unfolding quarantine_duration
quarantine_duration-eq-min p level h = escalate-eq-min (level - 1) _ _ (omega arith)

-- The signals of a burst, each with its time and name, on one state, with the answers.
unfoldable pub burst : Policy → List (ℕ × String) → ProviderState → ProviderState × List Bool
burst p [] st = (st, [])
burst p ((now, signal) ∷ ts) st =
    let rest = burst p ts (unstable p now signal st).0 in
    (rest.0, (unstable p now signal st).1 ∷ rest.1)

-- k signals have been counted in the window that began at w, at quarantine level l.
pub record Counting (k w l : ℕ) (st : ProviderState) : Type 0 where
  pub counted : st.instability_signals ≡ k
  pub since : st.signal_window_start ≡ w
  pub level : st.quarantine_level ≡ l
  pub steady : st.recovering ≡ false
  pub over : st.quarantined_until ≤ w

-- Each signal comes in the window that began at w.
abbrev pub Within : Policy → ℕ → List (ℕ × String) → Type 0
Within p w [] = Unit
Within p w ((now, signal) ∷ ts) = (w ≤ now) × (now ≤ w + p.window_seconds * second) × Within p w ts

unstable_first :
    (p : Policy) (w : ℕ) (signal : String) (st : ProviderState)
    → 0 < w
    → (st.signal_window_start ≡ 0) ⊎ (st.signal_window_start + p.window_seconds * second < w)
    → st.recovering ≡ false
    → st.quarantined_until ≤ w
    → 1 < p.signal_threshold
    → Counting 1 w st.quarantine_level (unstable p w signal st).0
      × ((unstable p w signal st).1 ≡ false)
unfolding unstable
unstable_first p w signal st pos idle steady over more = ground arith

unstable_counts :
    (p : Policy) (k w l now : ℕ) (signal : String) (st : ProviderState)
    → 0 < w
    → Counting k w l st
    → w ≤ now
    → now ≤ w + p.window_seconds * second
    → suc k < p.signal_threshold
    → Counting (suc k) w l (unstable p now signal st).0 × ((unstable p now signal st).1 ≡ false)
unfolding unstable
unstable_counts p k w l now signal st pos c le near more = ground arith

unstable_reaches :
    (p : Policy) (k w l now : ℕ) (signal : String) (st : ProviderState)
    → 0 < w
    → Counting k w l st
    → w ≤ now
    → now ≤ w + p.window_seconds * second
    → suc k ≡ p.signal_threshold
    → ((unstable p now signal st).1 ≡ true)
      × (now + quarantine_duration p (l + 1) ≤ (unstable p now signal st).0.quarantined_until)
      × ((unstable p now signal st).0.quarantine_level ≡ l + 1)
unfolding unstable
unstable_reaches p k w l now signal st pos c le near last = ground arith

burst_counts :
    (p : Policy) (ts : List (ℕ × String)) (k w l : ℕ) (st : ProviderState)
    → 0 < w
    → Counting k w l st
    → Within p w ts
    → k + length ts < p.signal_threshold
    → Counting (k + length ts) w l (burst p ts st).0
      × All (λ answer. answer ≡ false) (burst p ts st).1
unfolding burst
burst_counts p [] k w l st pos c near more = (rw add-zero c, tt)
burst_counts p ((now, signal) ∷ ts) k w l st pos c near more =
    let (c', answer) = unstable_counts p k w l now signal st pos c near.0 near.1 (omega arith) in
    let (d, answers) =
      burst_counts p ts (suc k) w l (unstable p now signal st).0 pos c' near.2 (omega arith) in
    (
      subst (λ n. Counting n w l (burst p ts (unstable p now signal st).0).0) (omega arith) d,
      (answer, answers),
    )

-- A burst of signals of a steady provider, the first at `w` and all in the window that it opens:
-- no signal below the threshold quarantines it, and the one that reaches the threshold does, one
-- level up, for at least the duration of that level.
pub burst_quarantines :
    (p : Policy) (w now : ℕ) (first last : String) (ts : List (ℕ × String)) (st : ProviderState)
    → 0 < w
    → (st.signal_window_start ≡ 0) ⊎ (st.signal_window_start + p.window_seconds * second < w)
    → st.recovering ≡ false
    → st.quarantined_until ≤ w
    → Within p w ts
    → w ≤ now
    → now ≤ w + p.window_seconds * second
    → length ts + 2 ≡ p.signal_threshold
    → let (before, answers) = burst p ((w, first) ∷ ts) st in
      let (after, answer) = unstable p now last before in
      All (λ a. a ≡ false) answers
      × (answer ≡ true)
      × (after.quarantine_level ≡ st.quarantine_level + 1)
      × (now + quarantine_duration p (st.quarantine_level + 1) ≤ after.quarantined_until)
unfolding burst
burst_quarantines p w now first last ts st pos idle steady over near le soon enough =
    let (c, answer) = unstable_first p w first st pos idle steady over (omega arith) in
    let (d, answers) =
      burst_counts p ts 1 w st.quarantine_level (unstable p w first st).0 pos c near
        (omega arith) in
    let (done, until, level) =
      unstable_reaches p (1 + length ts) w st.quarantine_level now last
        (burst p ts (unstable p w first st).0).0 pos d le soon (omega arith) in
    ((answer, answers), done, level, until)

-- Successful responses, each with its time and its start, on one state.
unfoldable pub successes : Policy → List (ℕ × ℕ) → ProviderState → ProviderState
successes p [] st = st
successes p ((now, started) ∷ ts) st =
    successes p ts (if idle now started st then st else healthy p now st)

-- Each success began after the last failure and ended after the quarantine.
abbrev pub Clean : ℕ → ℕ → List (ℕ × ℕ) → Type 0
Clean failed quarantined [] = Unit
Clean failed quarantined ((now, started) ∷ ts) =
    (failed ≤ started) × (quarantined ≤ now) × Clean failed quarantined ts

pub record Recovering (failed quarantined l k : ℕ) (st : ProviderState) : Type 0 where
  pub failure : st.last_failure ≡ failed
  pub until : st.quarantined_until ≡ quarantined
  pub level : st.quarantine_level ≡ l
  pub counted : st.recovery_successes ≡ k

success_counts :
    (p : Policy) (f q l k now started : ℕ) (st : ProviderState)
    → Recovering f q l k st
    → 0 < l
    → f ≤ started
    → q ≤ now
    → suc k < p.recovery_successes
    → Recovering f q l (suc k) (if idle now started st then st else healthy p now st)
unfolding idle healthy
success_counts p f q l k now started st r pos late over more = ground arith

success_recovers :
    (p : Policy) (f q l k now started : ℕ) (st : ProviderState)
    → Recovering f q l k st
    → 0 < l
    → f ≤ started
    → q ≤ now
    → suc k ≡ p.recovery_successes
    → let st' = if idle now started st then st else healthy p now st in
      (st'.quarantine_level ≡ 0)
      × (st'.recovering ≡ false)
      × (st'.instability_signals ≡ 0)
      × (st'.quarantined_until ≡ 0)
unfolding idle healthy
success_recovers p f q l k now started st r pos late over last = ground arith

successes_count :
    (p : Policy) (ts : List (ℕ × ℕ)) (f q l k : ℕ) (st : ProviderState)
    → Recovering f q l k st
    → 0 < l
    → Clean f q ts
    → k + length ts < p.recovery_successes
    → Recovering f q l (k + length ts) (successes p ts st)
unfolding successes
successes_count p [] f q l k st r pos clean more = rw add-zero r
successes_count p ((now, started) ∷ ts) f q l k st r pos clean more =
    subst (λ n. Recovering f q l n (successes p ((now, started) ∷ ts) st)) (omega arith)
      (successes_count p ts f q l (suc k) _
        (success_counts p f q l k now started st r pos clean.0 clean.1 (omega arith)) pos clean.2
        (omega arith))

-- Consecutive successes of a provider with an escalated quarantine, each begun after the last
-- failure and ended after the quarantine: fewer than the configured number leave the level as it
-- is, and the one that makes the number full resets it.
pub successes_recover :
    (p : Policy) (ts : List (ℕ × ℕ)) (now started : ℕ) (st : ProviderState)
    → 0 < st.quarantine_level
    → Clean st.last_failure st.quarantined_until ts
    → st.last_failure ≤ started
    → st.quarantined_until ≤ now
    → st.recovery_successes + length ts + 1 ≡ p.recovery_successes
    → let before = successes p ts st in
      let after = successes p ((now, started) ∷ []) before in
      (before.quarantine_level ≡ st.quarantine_level)
      × (after.quarantine_level ≡ 0)
      × (after.recovering ≡ false)
      × (after.instability_signals ≡ 0)
      × (after.quarantined_until ≡ 0)
unfolding successes
successes_recover p ts now started st pos clean late over last =
    let r =
      successes_count p ts st.last_failure st.quarantined_until st.quarantine_level
        st.recovery_successes st
        (record { failure = refl; until = refl; level = refl; counted = refl }) pos clean
        (omega arith) in
    let (level, steady, counted, over') =
      success_recovers p st.last_failure st.quarantined_until st.quarantine_level _ now started
        (successes p ts st) r pos late over (omega arith) in
    (r.level, level, steady, counted, over')
