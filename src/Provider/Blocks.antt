-- ===== src/Provider/Blocks.antt =====
-- What a block promises: `providerBlocked` reads the deadlines as they stand, and a block holds
-- until its deadline against shorter blocks and against successes that began before it.
use claude_gateway.Prelude.{
  ℕ, ◌+◌, ◌≤◌, ◌<◌, max, ◌≡◌, refl, sym, ap, ◌∙◌, String, true, false, ◌||◌, inl, inr, ltb, str_eq,
  str_eq_refl, lookup, insert, lookup-insert, Option-cases, if◌then◌else◌, arith,
}
use claude_gateway.Provider.{
  ProviderState, States, state_of, expire, report, provider_blocked, or_minute, mark_state,
  mark_provider_blocked, clear_provider_block_after,
}

pub state_of-insert :
    (k j : String) (st : ProviderState) (m : States)
    → state_of j (insert k st m) ≡ (if str_eq k j then st else state_of j m)
state_of-insert k j st m = ground (arith, lookup-insert k j st m)

-- A deadline counts while it lies ahead.
abbrev pub live : ℕ → ℕ → ℕ
live now t = if ltb now t then t else 0

pub report-expire :
    (now : ℕ) (st : ProviderState)
    → ((report (expire now st)).0 ≡ (ltb now st.blocked_until || ltb now st.quarantined_until))
      × ((report (expire now st)).1.blocked_until
          ≡ max (live now st.blocked_until) (live now st.quarantined_until))
unfolding report expire
report-expire now st = ground arith

expire-expire : (now : ℕ) (st : ProviderState) → expire now (expire now st) ≡ expire now st
unfolding expire
expire-expire now st = ground arith

pub provider_blocked-state_of :
    (now : ℕ) (name : String) (m : States)
    → (provider_blocked now name m).0 ≡ report (expire now (state_of name m))
unfolding provider_blocked report expire
provider_blocked-state_of now name m = elim (Option-cases (lookup name m)) [
  | inl e ↦ rw (e, provider_blocked) refl
  | inr (st, e) ↦ rw (e, provider_blocked) refl
]

pub provider_blocked_after :
    (now : ℕ) (name : String) (m : States)
    → state_of name (provider_blocked now name m).1 ≡ expire now (state_of name m)
unfolding provider_blocked expire
provider_blocked_after now name m = elim (Option-cases (lookup name m)) [
  | inl e ↦ rw (e, provider_blocked) (rw e refl)
  | inr (st, e) ↦ rw (e, provider_blocked) (rw (state_of-insert, str_eq_refl) refl)
]

provider_blocked_again :
    (now : ℕ) (name : String) (m : States)
    → (provider_blocked now name (provider_blocked now name m).1).0
      ≡ (provider_blocked now name m).0
provider_blocked_again now name m =
    rw
      (
        provider_blocked-state_of now name (provider_blocked now name m).1,
        provider_blocked_after,
        expire-expire,
      )
      (sym (provider_blocked-state_of now name m))

blocked_at :
    (t : ℕ) (name : String) (m : States)
    → t < (state_of name m).blocked_until
    → (provider_blocked t name m).0.0 ≡ true
blocked_at t name m h =
    ap (λ r. r.0) (provider_blocked-state_of t name m)
    ∙ ground (arith, report-expire t (state_of name m))

mark_state_until :
    (now : ℕ) (reason : String) (duration : ℕ) (st : ProviderState)
    → (now + or_minute duration ≤ (mark_state now reason duration st).blocked_until)
      × (st.blocked_until ≤ (mark_state now reason duration st).blocked_until)
      × ((mark_state now reason duration st).last_failure ≡ now)
unfolding mark_state
mark_state_until now reason duration st = ground arith

state_of-mark :
    (now : ℕ) (name reason : String) (duration : ℕ) (m : States)
    → state_of name (mark_provider_blocked now name reason duration m).0
      ≡ mark_state now reason duration (state_of name m)
unfolding mark_provider_blocked mark_state
state_of-mark now name reason duration m = rw (state_of-insert, str_eq_refl) refl

lookup-mark :
    (now : ℕ) (name other reason : String) (duration : ℕ) (m : States)
    → str_eq name other ≡ false
    → lookup other (mark_provider_blocked now name reason duration m).0 ≡ lookup other m
unfolding mark_provider_blocked
lookup-mark now name other reason duration m apart = rw (lookup-insert, apart) refl

-- A provider is reported blocked exactly while its block or its quarantine lies ahead, until the
-- later of those that do; asking again at the same time gives the same answer.
pub provider_blocked_lem :
    (now : ℕ) (name : String) (m : States)
    → let (answer, after) = provider_blocked now name m in
      let st = state_of name m in
      (answer.0 ≡ (ltb now st.blocked_until || ltb now st.quarantined_until))
      × (answer.1.blocked_until ≡ max (live now st.blocked_until) (live now st.quarantined_until))
      × ((provider_blocked now name after).0 ≡ answer)
provider_blocked_lem now name m =
    let st = state_of name m in
    let (blocked, until) = report-expire now st in
    (
      ap (λ r. r.0) (provider_blocked-state_of now name m) ∙ blocked,
      ap (λ r. r.1.blocked_until) (provider_blocked-state_of now name m) ∙ until,
      provider_blocked_again now name m,
    )

-- A block that is marked at `now` holds at every earlier time than its end, whatever the state
-- was, and no later mark `now'` with a duration of its own shortens it; the other providers keep
-- their state.
pub mark_provider_blocked_holds :
    (now now' t : ℕ) (name other reason reason' : String) (duration duration' : ℕ) (m : States)
    → t < now + or_minute duration
    → str_eq name other ≡ false
    → let m' = (mark_provider_blocked now name reason duration m).0 in
      let m'' = (mark_provider_blocked now' name reason' duration' m').0 in
      ((provider_blocked t name m'').0.0 ≡ true) × (lookup other m'' ≡ lookup other m)
mark_provider_blocked_holds now now' t name other reason reason' duration duration' m h apart =
    let m' = (mark_provider_blocked now name reason duration m).0 in
    (
      blocked_at t name (mark_provider_blocked now' name reason' duration' m').0 (
          rw
            (state_of-mark now' name reason' duration' m', state_of-mark now name reason duration m)
            (omega (
              arith,
              mark_state_until now reason duration (state_of name m),
              mark_state_until now' reason' duration'
                  (mark_state now reason duration (state_of name m)),
            ))),
      lookup-mark now' name other reason' duration' m' apart
          ∙ lookup-mark now name other reason duration m apart,
    )

clear_stale :
    (now started : ℕ) (name : String) (m : States)
    → 0 < started
    → started < (state_of name m).last_failure
    → clear_provider_block_after now name started m ≡ m
unfolding clear_provider_block_after
clear_stale now started name m pos old = ground arith

-- A success that began before a failure was marked does not lift the block.
pub mark-clear_provider_block_after_stale :
    (now later t started : ℕ) (name reason : String) (duration : ℕ) (m : States)
    → 0 < started
    → started < now
    → t < now + or_minute duration
    → let m' = (mark_provider_blocked now name reason duration m).0 in
      (provider_blocked t name (clear_provider_block_after later name started m')).0.0 ≡ true
mark-clear_provider_block_after_stale now later t started name reason duration m pos old h =
    let m' = (mark_provider_blocked now name reason duration m).0 in
    let marked = mark_state_until now reason duration (state_of name m) in
    let same =
      clear_stale later started name m' pos
        (rw (state_of-mark now name reason duration m) (omega (arith, marked))) in
    rw same
      (blocked_at t name m' (rw (state_of-mark now name reason duration m) (omega (arith, marked))))
