-- ===== src/Stream/Monitor.antt =====
-- What a client of the Anthropic protocol expects of a stream of events, as a monitor that reads
-- them one by one: one message, whose blocks are numbered from 0 in the order in which they open,
-- whose deltas name an open block of their kind, and which ends with every block closed or with an
-- error.
use claude_gateway.Prelude.{
  ℕ, suc, Bool, true, false, not, ◌&&◌, ◌||◌, Option, none, some, List, [], ◌∷◌, ◌++◌, ◌≡◌, ◌==◌,
  if◌then◌else◌, Option-cases, inl, inr, arith,
}
use claude_gateway.Stream.{
  Event, message_start, text_start, tool_start, text_delta, json_delta, block_stop, message_delta,
  message_stop, error_event, is_empty,
}

pub data Kind : Type 0 where
  text_block tool_block : Kind

pub data Phase : Type 0 where
  idle streaming ending stopped broken : Phase

-- `live` are the blocks that are open, by their numbers, the oldest first.
pub record Monitor : Type 0 where
  pub phase : Phase
  pub next : ℕ
  pub live : List (ℕ × Kind)

abbrev pub begin : Monitor
begin = record { phase = idle; next = 0; live = [] }

abbrev pub kind_at : ℕ → List (ℕ × Kind) → Option Kind
kind_at i [] = none
kind_at i ((j, k) ∷ es) = if j == i then some k else kind_at i es

abbrev pub shut : ℕ → List (ℕ × Kind) → List (ℕ × Kind)
shut i [] = []
shut i ((j, k) ∷ es) = if j == i then es else (j, k) ∷ shut i es

abbrev pub when : Bool → Monitor → Option Monitor
when b m = if b then some m else none

abbrev pub is_streaming : Phase → Bool
is_streaming streaming = true
is_streaming _ = false

abbrev pub is_text : Option Kind → Bool
is_text (some text_block) = true
is_text _ = false

abbrev pub is_tool : Option Kind → Bool
is_tool (some tool_block) = true
is_tool _ = false

abbrev pub none_open : List (ℕ × Kind) → Bool
none_open [] = true
none_open (e ∷ es) = false

abbrev pub opened : ℕ → Kind → Monitor → Monitor
opened i k m = record m { next = suc i; live = m.live ++ (i, k) ∷ [] }

unfoldable pub accept : Event → Monitor → Option Monitor
accept (message_start id model tokens) m = elim m.phase [
  | idle ↦ some (record m { phase = streaming })
  | _ ↦ none
]
accept (text_start i) m = when (is_streaming m.phase && (i == m.next)) (opened i text_block m)
accept (tool_start i id name) m =
    when (is_streaming m.phase && (i == m.next) && not (is_empty id) && not (is_empty name))
      (opened i tool_block m)
accept (text_delta i content) m =
    when (is_streaming m.phase && is_text (kind_at i m.live) && not (is_empty content)) m
accept (json_delta i partial) m = when (is_streaming m.phase && is_tool (kind_at i m.live)) m
accept (block_stop i) m =
    when (is_streaming m.phase && (is_text (kind_at i m.live) || is_tool (kind_at i m.live)))
      (record m { live = shut i m.live })
accept (message_delta reason input output cached) m =
    when (is_streaming m.phase && none_open m.live && not (is_empty reason))
      (record m { phase = ending })
accept message_stop m = elim m.phase [ ending ↦ some (record m { phase = stopped }) | _ ↦ none ]
accept (error_event message) m = elim m.phase [
  | idle ↦ some (record m { phase = broken })
  | streaming ↦ some (record m { phase = broken })
  | _ ↦ none
]

unfoldable pub watch : List Event → Monitor → Option Monitor
watch [] m = some m
watch (e ∷ es) m = elim (accept e m) [ none ↦ none | some n ↦ watch es n ]

pub watch-snoc :
    (es : List Event) (e : Event) (m n o : Monitor)
    → watch es m ≡ some n
    → accept e n ≡ some o
    → watch (es ++ e ∷ []) m ≡ some o
unfolding watch
watch-snoc [] e m n o seen next = ground arith
watch-snoc (x ∷ es) e m n o seen next = elim (Option-cases (accept x m)) [
  | inl refused ↦ ground arith
  | inr (p, taken) ↦ ground (arith, watch-snoc es e p n o)
]
