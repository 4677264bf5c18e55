-- ===== src/Provider/Relapse.antt =====
-- What follows when the end of a quarantine has been seen: `providerBlocked` puts the provider on
-- probation, and `observeProviderInstability` then quarantines it with one signal.
use claude_gateway.Prelude.{
  ℕ, ◌+◌, ◌≤◌, ◌<◌, ◌≡◌, sym, subst, refl, ap, ◌∙◌, String, true, false, List, [], ◌∷◌, str_eq,
  str_eq_refl, lookup, inl, inr, Option-cases, Bool-cases, eq_iff, arith,
}
use claude_gateway.Provider.{ProviderState, States, state_of, expire, provider_blocked}
use claude_gateway.Provider.Blocks.{
  state_of-insert, provider_blocked-state_of, report-expire, provider_blocked_after,
}
use claude_gateway.Provider.Quarantine.{Policy, quarantine_duration, unstable, observe_instability}

-- Calls of `providerBlocked`, each with its time and provider.
unfoldable pub asks : List (ℕ × String) → States → States
asks [] m = m
asks ((now, name) ∷ ts) m = asks ts (provider_blocked now name m).1

-- A quarantine of level `l` is over and was seen to be.
record OnProbation (l : ℕ) (st : ProviderState) : Type 0 where
  recovering : st.recovering ≡ true
  over : st.quarantined_until ≡ 0
  level : st.quarantine_level ≡ l

expire-OnProbation :
    (seen : ℕ) (st : ProviderState)
    → 0 < st.quarantined_until
    → st.quarantined_until ≤ seen
    → OnProbation st.quarantine_level (expire seen st)
unfolding expire
expire-OnProbation seen st pos over = ground arith

expire-keeps : (now l : ℕ) (st : ProviderState) → OnProbation l st → OnProbation l (expire now st)
unfolding expire
expire-keeps now l st o = ground arith

ask_other :
    (now : ℕ) (j name : String) (m : States)
    → str_eq j name ≡ false
    → state_of name (provider_blocked now j m).1 ≡ state_of name m
unfolding provider_blocked
ask_other now j name m apart = elim (Option-cases (lookup j m)) [
  | inl e ↦ rw (e, provider_blocked) refl
  | inr (st, e) ↦ rw (e, provider_blocked) (rw (state_of-insert, apart) refl)
]

ask-keeps :
    (now l : ℕ) (j name : String) (m : States)
    → OnProbation l (state_of name m)
    → OnProbation l (state_of name (provider_blocked now j m).1)
ask-keeps now l j name m o = elim (Bool-cases (str_eq j name)) [
  | inl same ↦
      subst (λ k. OnProbation l (state_of name (provider_blocked now k m).1))
        (sym ((eq_iff j name).0 same))
        (subst (OnProbation l) (sym (provider_blocked_after now name m))
          (expire-keeps now l (state_of name m) o))
  | inr apart ↦ subst (OnProbation l) (sym (ask_other now j name m apart)) o
]

asks-keeps :
    (ts : List (ℕ × String)) (l : ℕ) (name : String) (m : States)
    → OnProbation l (state_of name m)
    → OnProbation l (state_of name (asks ts m))
unfolding asks
asks-keeps [] l name m o = o
asks-keeps ((now, j) ∷ ts) l name m o =
    asks-keeps ts l name (provider_blocked now j m).1 (ask-keeps now l j name m o)

unstable_relapses :
    (p : Policy) (now l : ℕ) (signal : String) (st : ProviderState)
    → OnProbation l st
    → ((unstable p now signal st).1 ≡ true)
      × ((unstable p now signal st).0.quarantine_level ≡ l + 1)
      × ((unstable p now signal st).0.quarantined_until ≡ now + quarantine_duration p (l + 1))
unfolding unstable
unstable_relapses p now l signal st o = ground (arith, o.recovering, o.over, o.level)

blocked_by_quarantine :
    (t : ℕ) (name : String) (m : States)
    → t < (state_of name m).quarantined_until
    → (provider_blocked t name m).0.0 ≡ true
blocked_by_quarantine t name m h =
    ap (λ r. r.0) (provider_blocked-state_of t name m)
    ∙ ground (arith, report-expire t (state_of name m))

observed_state :
    (p : Policy) (now : ℕ) (name signal : String) (m : States)
    → p.enabled ≡ true
    → ((observe_instability p true false now name signal m).1
        ≡ (unstable p now signal (state_of name m)).1)
      × (state_of name (observe_instability p true false now name signal m).0
          ≡ (unstable p now signal (state_of name m)).0)
unfolding observe_instability unstable
observed_state p now name signal m on = rw on (refl, rw (state_of-insert, str_eq_refl) refl)

-- A provider whose quarantine was seen to be over, by a call of `providerBlocked` at `seen`, is on
-- probation, whatever further calls of `providerBlocked` for it and for other providers come: the
-- next signal of it, where quarantines and its circuit are enabled and no shared incident explains
-- the signal, quarantines it one level higher, and it is reported blocked until the end of that
-- level's duration.
pub asks-observe_instability :
    (p : Policy) (seen now t : ℕ) (name signal : String) (ts : List (ℕ × String)) (m : States)
    → p.enabled ≡ true
    → 0 < (state_of name m).quarantined_until
    → (state_of name m).quarantined_until ≤ seen
    → t < now + quarantine_duration p ((state_of name m).quarantine_level + 1)
    → let (after, answer) =
        observe_instability p true false now name signal (asks ((seen, name) ∷ ts) m) in
      let level = (state_of name m).quarantine_level + 1 in
      (answer ≡ true)
      × ((state_of name after).quarantine_level ≡ level)
      × ((state_of name after).quarantined_until ≡ now + quarantine_duration p level)
      × ((provider_blocked t name after).0.0 ≡ true)
unfolding asks
asks-observe_instability p seen now t name signal ts m on pos over early =
    let l = (state_of name m).quarantine_level in
    let m' = asks ts (provider_blocked seen name m).1 in
    let probation = asks-keeps ts l name (provider_blocked seen name m).1 (
      subst (OnProbation l) (sym (provider_blocked_after seen name m))
        (expire-OnProbation seen (state_of name m) pos over)) in
    let (again, higher, until) = unstable_relapses p now l signal (state_of name m') probation in
    let (answer, state) = observed_state p now name signal m' on in
    let after = (observe_instability p true false now name signal m').0 in
    let lasts = ap (λ st. st.quarantined_until) state ∙ until in
    (
      answer ∙ again,
      ap (λ st. st.quarantine_level) state ∙ higher,
      lasts,
      blocked_by_quarantine t name after (omega (arith, lasts, early)),
    )
