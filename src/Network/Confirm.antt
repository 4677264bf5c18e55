-- ===== src/Network/Confirm.antt =====
-- When strong transport failures become an incident.
use claude_gateway.Prelude.{
  ℕ, ◌+◌, ◌≤◌, ◌≡◌, refl, ◌∙◌, String, Bool, true, false, List, [], ◌∷◌, leb, length, keep, insert,
  str_eq_refl, arith,
}
use claude_gateway.Provider.{ProviderState, States}
use claude_gateway.Provider.Quarantine.{Policy}
use claude_gateway.Network.Probe.{Trace, start}
use claude_gateway.Network.{
  Phase, recovering, Incident, Shared, no_incident, normalize, suspect, transport_failure,
  suspected, is_active, origin_threshold, incident_window, shared_network_signal, offline,
}

-- The only signal is that of one origin.
abbrev pub OnlyFrom : String → List (String × ℕ) → Type 0
OnlyFrom origin [] = Unit
OnlyFrom origin ((o, t) ∷ es) = (o ≡ origin) × (es ≡ [])

keep-OnlyFrom :
    (q : (String × ℕ) → Bool) (origin : String) (es : List (String × ℕ))
    → OnlyFrom origin es
    → OnlyFrom origin (keep q es)
keep-OnlyFrom q origin [] h = tt
keep-OnlyFrom q origin (e ∷ es) h = ground arith

insert-OnlyFrom :
    (origin : String) (t : ℕ) (es : List (String × ℕ))
    → OnlyFrom origin es
    → OnlyFrom origin (insert origin t es)
insert-OnlyFrom origin t [] h = (refl, refl)
insert-OnlyFrom origin t ((o, u) ∷ es) h = ground (arith, str_eq_refl origin)

length-OnlyFrom : (origin : String) (es : List (String × ℕ)) → OnlyFrom origin es → length es ≤ 1
length-OnlyFrom origin [] h = omega arith
length-OnlyFrom origin (e ∷ es) h = ground arith

-- No incident is on, and nothing was heard from another origin.
pub record Alone (origin : String) (i : Incident) : Type 0 where
  pub heard : OnlyFrom origin i.signals
  pub calm : is_active i.phase ≡ false

normalize-Alone :
    (p : Policy) (now : ℕ) (origin : String) (i : Incident)
    → Alone origin i
    → Alone origin (normalize p now i)
unfolding normalize
normalize-Alone p now origin i a =
    ground (arith, keep-OnlyFrom (λ e. leb now (e.1 + incident_window p)) origin i.signals a.heard)

transport_failure-Alone :
    (p : Policy) (strong : Bool) (now : ℕ) (origin : String) (s : Shared)
    → 2 ≤ origin_threshold p
    → Alone origin s.incident
    → Alone origin (transport_failure p strong now origin s).0.incident
      × ((transport_failure p strong now origin s).1.stop_fallback ≡ false)
      × ((transport_failure p strong now origin s).0.states ≡ s.states)
unfolding transport_failure suspect
transport_failure-Alone p strong now origin s two a =
    let b = normalize-Alone p now origin s.incident a in
    let c = insert-OnlyFrom origin now (normalize p now s.incident).signals b.heard in
    ground (
      arith,
      b,
      c,
      length-OnlyFrom origin (insert origin now (normalize p now s.incident).signals) c,
    )

-- The transport failures of one origin, each with its time and whether it is a strong one.
unfoldable pub failures : Policy → String → List (ℕ × Bool) → Shared → Shared
failures p origin [] s = s
failures p origin ((now, strong) ∷ fs) s =
    failures p origin fs (transport_failure p strong now origin s).0

failures-Alone :
    (p : Policy) (origin : String) (fs : List (ℕ × Bool)) (s : Shared)
    → 2 ≤ origin_threshold p
    → Alone origin s.incident
    → Alone origin (failures p origin fs s).incident × ((failures p origin fs s).states ≡ s.states)
unfolding failures
failures-Alone p origin [] s two a = (a, refl)
failures-Alone p origin ((now, strong) ∷ fs) s two a =
    let (b, goes_on, same) = transport_failure-Alone p strong now origin s two a in
    let (c, same') = failures-Alone p origin fs (transport_failure p strong now origin s).0 two b in
    (c, same' ∙ same)

-- However many transport failures one origin reports, they alone do not make an incident where
-- two origins are asked for: the phase is never offline or recovering, the provider states stay
-- as they are, and the next failure of that origin does not stop the fallback either.
pub failures_of_one_origin :
    (p : Policy) (origin : String) (fs : List (ℕ × Bool)) (now : ℕ) (states : States)
    → 2 ≤ origin_threshold p
    → let s = failures p origin fs (record { states = states; incident = no_incident }) in
      (is_active s.incident.phase ≡ false)
      × (s.states ≡ states)
      × ((transport_failure p true now origin s).1.stop_fallback ≡ false)
failures_of_one_origin p origin fs now states two =
    let s : Shared = record { states = states; incident = no_incident } in
    let (a, same) = failures-Alone p origin fs s two (record { heard = tt; calm = refl }) in
    (a.calm, same, (transport_failure-Alone p true now origin _ two a).1)

-- No state carries a signal that the incident explains.
abbrev pub IsCleared : ProviderState → Type 0
IsCleared st =
    (shared_network_signal st.quarantine_reason ≡ false)
    × (shared_network_signal st.last_signal ≡ false)

-- One origin was heard, at t, and made the gateway suspicious.
pub record Suspects (a : String) (t : ℕ) (i : Incident) : Type 0 where
  pub heard : i.signals ≡ (a, t) ∷ []
  pub phase : i.phase ≡ suspected
  pub since : i.suspected_at ≡ t

abbrev is_on : Phase → Bool
is_on suspected = true
is_on offline = true
is_on recovering = true
is_on _ = false

-- Signals are kept only in suspicion or in an incident.
IsQuiet : Incident → Type 0
IsQuiet i = is_on i.phase ≡ false → i.signals ≡ []

-- The gateway before any call, with the provider states given.
abbrev pub starting : States → Trace
starting states = record start { shared = record { states = states; incident = no_incident } }
