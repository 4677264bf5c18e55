-- ===== src/Tests/Providers.antt =====
-- Blocks and quarantines of concrete providers.
use claude_gateway.Prelude.{
  ◌+◌, ◌-◌, ◌*◌, ◌^◌, ◌≤◌, min, ◌≡◌, refl, inl, true, false, none, some, [], ◌∷◌, All, lookup,
  second, minute, arith,
}
use claude_gateway.Provider.{
  ProviderState, States, no_state, state_of, provider_blocked, mark_provider_blocked,
  clear_provider_block_after, clear_ollama_usage_block, clear_cline_usage_block,
  clear_profile_auth_block,
}
use claude_gateway.Provider.Quarantine.{
  Policy, quarantine_duration, unstable, observe_instability, observe_healthy_after,
}
use claude_gateway.Provider.Blocks.{
  provider_blocked_lem, mark_provider_blocked_holds, mark-clear_provider_block_after_stale,
}
use claude_gateway.Provider.Escalation.{
  burst, successes, quarantine_duration-eq-min, burst_quarantines, successes_recover,
}
use claude_gateway.Provider.Relapse.{asks, asks-observe_instability}

abbrev policy : Policy
policy = record {
  enabled = true;
  signal_threshold = 3;
  window_seconds = 300;
  base_seconds = 30;
  max_seconds = 120;
  recovery_successes = 2;
  network_incident_origins = 2;
  network_incident_window_seconds = 15;
  network_incident_suppress_seconds = 90;
}

abbrev limited : ProviderState
limited = record no_state { blocked_until = 50; reason = "quota"; quarantined_until = 70 }

abbrev table : States
table = ("work", limited) ∷ ("backup", no_state) ∷ []

provider_blocked_lem_example :
    let (answer, after) = provider_blocked 60 "work" table in
    (answer.0 ≡ true)
    × (answer.1.blocked_until ≡ 70)
    × ((provider_blocked 60 "work" after).0 ≡ answer)
provider_blocked_lem_example = provider_blocked_lem 60 "work" table

mark_provider_blocked_holds_example :
    let m' = (mark_provider_blocked 10 "work" "quota" minute table).0 in
    let m'' = (mark_provider_blocked 20 "work" "rate" 5 m').0 in
    ((provider_blocked 100 "work" m'').0.0 ≡ true) × (lookup "backup" m'' ≡ some no_state)
mark_provider_blocked_holds_example =
    mark_provider_blocked_holds 10 20 100 "work" "backup" "quota" "rate" minute 5 table
      (omega arith) refl

mark-clear_provider_block_after_stale_example :
    let m' = (mark_provider_blocked 10 "work" "transport" 0 table).0 in
    (provider_blocked 100 "work" (clear_provider_block_after 30 "work" 5 m')).0.0 ≡ true
mark-clear_provider_block_after_stale_example =
    mark-clear_provider_block_after_stale 10 30 100 5 "work" "transport" 0 table (omega arith)
      (omega arith) (omega arith)

quarantine_duration-eq-min_example :
    quarantine_duration policy 2 ≡ min (30 * second * 2 ^ (2 - 1)) (120 * second)
quarantine_duration-eq-min_example = quarantine_duration-eq-min policy 2 (omega arith)

abbrev steady : ProviderState
steady = no_state

burst_quarantines_example :
    let (before, answers) = burst policy ((10, "stream_error") ∷ (20, "transport") ∷ []) steady in
    let (after, answer) = unstable policy 30 "transport" before in
    All (λ a. a ≡ false) answers
    × (answer ≡ true)
    × (after.quarantine_level ≡ 1)
    × (30 + quarantine_duration policy 1 ≤ after.quarantined_until)
burst_quarantines_example =
    burst_quarantines policy 10 30 "stream_error" "transport" ((20, "transport") ∷ []) steady
      (omega arith) (inl refl) refl (omega arith) (omega arith) (omega arith) (omega arith)
      (omega arith)

abbrev quarantined : ProviderState
quarantined = record no_state {
  quarantined_until = 50;
  quarantine_reason = "transport";
  quarantine_level = 1;
}

-- Seen to be over at 55, asked for again at 57, and a signal at 60.
asks-observe_instability_example :
    let (after, answer) =
      observe_instability policy true false 60 "a" "stream_error"
        (asks ((55, "a") ∷ (57, "a") ∷ []) (("a", quarantined) ∷ [])) in
    (answer ≡ true)
    × ((state_of "a" after).quarantine_level ≡ 2)
    × ((state_of "a" after).quarantined_until ≡ 60 + quarantine_duration policy 2)
    × ((provider_blocked 100 "a" after).0.0 ≡ true)
asks-observe_instability_example =
    asks-observe_instability policy 55 60 100 "a" "stream_error" ((57, "a") ∷ [])
      (("a", quarantined) ∷ []) refl (omega arith) (omega arith)
      (rw (quarantine_duration-eq-min policy 2 (omega arith)) (omega arith))

successes_recover_example :
    let before = successes policy ((70, 60) ∷ []) quarantined in
    let after = successes policy ((90, 80) ∷ []) before in
    (before.quarantine_level ≡ 1)
    × (after.quarantine_level ≡ 0)
    × (after.recovering ≡ false)
    × (after.instability_signals ≡ 0)
    × (after.quarantined_until ≡ 0)
successes_recover_example =
    successes_recover policy ((70, 60) ∷ []) 90 80 quarantined (omega arith) (omega arith)
      (omega arith) (omega arith) (omega arith)

-- An incident elsewhere, or a provider without a circuit breaker, is no signal; a success of an
-- unknown provider makes no entry.
observe_run :
    (observe_instability policy true true 5 "work" "transport" table ≡ (table, false))
    × (observe_instability policy false false 5 "work" "transport" table ≡ (table, false))
    × (observe_healthy_after policy true 5 "new" 0 table ≡ table)
unfolding observe_instability observe_healthy_after
observe_run = (refl, refl, refl)

-- Only the function that a usage block belongs to lifts it.
usage_run :
    let m : States =
      ("o", record no_state { blocked_until = 9; reason = "ollama_usage_weekly" }) ∷ [] in
    (clear_cline_usage_block 3 "o" m ≡ m)
    × (clear_profile_auth_block 3 "o" none m ≡ (m, false))
    × ((state_of "o" (clear_ollama_usage_block 3 "o" m)).blocked_until ≡ 0)
unfolding clear_cline_usage_block clear_profile_auth_block clear_ollama_usage_block
usage_run = (refl, refl, refl)
