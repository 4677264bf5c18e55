-- ===== src/Lib.antt =====
-- Verification of the gateway's request routing and spending control (Go, package main).
--
-- The gateway forwards each request along a chain of routes (provider and upstream model). Before
-- an attempt it asks whether the provider is blocked or quarantined, whether the route's circuit
-- is open and whether the network itself is down; after it, it reports success or failure to the
-- same components. The chunks of an OpenAI upstream are translated to Anthropic events, and those of
-- an Anthropic upstream are validated and filtered. A metered provider's spending is reserved
-- before an attempt and settled after.
--
-- Files and the code they are about:
--   * Prelude and its children: shared names, lists, and maps as association lists.
--   * Circuit (anthropic-proxy.go, circuitState and the functions on it): Circuit.antt has the
--     operations on one circuit, Circuit/Table the table of circuits, Circuit/History the calls in
--     the order in which the mutex admits them, Circuit/Backoff the cooldowns, Circuit/Probes the
--     half-open probes.
--   * Provider (anthropic-proxy.go, providerRuntimeState): Provider.antt has the blocks,
--     Provider/Quarantine the quarantine of unstable providers; Provider/Blocks, Escalation and
--     Relapse their laws.
--   * Network (anthropic-proxy.go, sharedNetworkIncidentState): the phases of a shared network
--     incident; Network/Probe and Network/Confirm their laws.
--   * PaidBudget (paid_budget.go): the ledger file and its edits; PaidBudget/Sums, Steps,
--     Solvency, Window and Recovery their laws.
--   * Json: decoded JSON and the assertions on it.
--   * Stream (anthropic-proxy.go, openaiStreamState): Stream.antt has the state and its events,
--     Stream/Blocks the tool blocks, Stream/Chunks the steps on one chunk and the end of a message,
--     Stream/Lines the loop over the input; Stream/Monitor is the protocol that a client expects,
--     and Chains, Steps, Calls, Faults, Ends and Trace prove that the events follow it, Texts that
--     they bring the upstream's text, Limits the bounds on tool calls.
--   * ToolIds (anthropic-proxy.go, sanitizeToolUseID): the identifiers of tool calls;
--     ToolIds/Valid their validity.
--   * Filter (anthropic-proxy.go, filterSSE): the filter of Anthropic event streams. Filter.antt has
--     its state, Filter/Payload the changes to an event, Filter/Frame one frame, Filter/Loop the loop
--     over the lines; Kinds, Passed, Monitor and Order are about the order of what is written,
--     Numbers, Allotted and Renumbered about the numbers of blocks.
--   * StreamPrelude (stream_prelude.go): what the first frames of a stream tell;
--     StreamPrelude/Metadata their translation, StreamPrelude/Agreement the two classifications.
--   * Usage (usage_tokens.go): the reported token counts; Usage/Counts, Coherence and Precedence
--     their laws.
--   * Rollup (rollups.go): Rollup.antt has the counts of an hour, Rollup/Store the store with the
--     flush and the reading of its lines; Counters, Reading, Batches, Appends, Exact,
--     Readiness and Complete their laws.
--   * WorkerHistory (worker_budget.go, rememberWorkerUsageLocked): the usage snapshots of workers;
--     WorkerHistory/Bound how many there are.
--   * Load (anthropic-proxy.go, reserveRoute): the requests in flight on each route.
--   * Outage (anthropic-proxy.go, observeClaudeServiceFailure): the failures that arm the paid
--     fallback.
--   * Tests: runs on concrete inputs, and each theorem applied to one.
--
-- Correspondence. A method that changes shared state under a mutex is a function that returns the
-- new state; a history is a list of such calls, so that every interleaving of goroutines is one
-- history. A time is a natural number of nanoseconds and 0 is Go's zero time; one call reads the
-- clock once, and `now.Sub(t) > d` is `t + d < now`. A map is an association list in which the
-- first entry with a key counts; what depends on Go's random iteration order is stated for the
-- list's order. Log lines and recorded events change no modelled state and are left out.
--
-- Bounds. The loop of quarantineDuration recurs on the rounds that are left, level - 1 at most.
-- int64 sums of micro-dollars do not wrap: a ledger has at most 32768 entries of at most 10^12.
-- The comparison of the budget is made on float64 in the code; below 2^53 it is exact, and the cap
-- of a provider is at most 10^12. The epoch counter wraps at 2^64.
-- A cost and an entry's amount are natural numbers, so that the code's tests for negative ones are
-- not represented; no caller gives a negative cost. Durations do not wrap, which holds for settings
-- below 292 years.
--
-- Streams. A text is its UTF-8. A write to the client that fails ends the translation, so that the
-- client has a beginning of the events. The loops of Stream recur on the input's lines and items.
--
-- Rollups. An int64 is its 64 bits. A flush is two steps for each key, the batch and the append,
-- between which observations may come; an append that reports an error may have written its line.
-- The day files are one list of lines.
--
-- Not modelled: HTTP, the other JSON of requests and responses, credentials, configuration files,
-- metrics and the dashboard; the order of files on disk below one edit (the environment's answers
-- to one edit are the record Disk).
pub mod Prelude
pub mod Circuit
pub mod Provider
pub mod Filter
pub mod Json
pub mod Load
pub mod Network
pub mod Outage
pub mod PaidBudget
pub mod Stream
pub mod StreamPrelude
pub mod ToolIds
pub mod Usage
pub mod Rollup
pub mod WorkerHistory
mod Tests
