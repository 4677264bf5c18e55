-- ===== src/Rollup/Reading.antt =====
-- What the lines on disk add up to, for `readRollupLines` of rollups.go.
use claude_gateway.Prelude.{
  ℕ, String, Bool, true, false, ◌||◌, Option, none, some, List, [], ◌∷◌, ◌++◌, ◌≡◌, refl, sym, ap,
  ◌∙◌, inl, inr, str_eq, eq_iff, if◌then◌else◌, if_both, Option-cases, Bool-cases, arith,
}
use claude_gateway.Rollup.{plus, RollupCounts, no_counts, counts_add}
use claude_gateway.Rollup.Counters.{
  Counter, count, count-counts_add, count-no_counts, plus_assoc, plus_comm,
}
use claude_gateway.Rollup.Store.{LineId, RollupLine, read_lines, same_id, seen}

-- The sum of the lines of a key.
unfoldable pub history : String → List RollupLine → RollupCounts
history k [] = no_counts
history k (l ∷ ls) = if str_eq l.key k then counts_add (history k ls) l.delta else history k ls

-- Whether a line with the identifier is there.
unfoldable pub holds : LineId → List RollupLine → Bool
holds i [] = false
holds i (l ∷ ls) = elim l.id [ none ↦ holds i ls | some j ↦ same_id j i || holds i ls ]

pub same_id→eq : (i j : LineId) → same_id i j ≡ true → i ≡ j
unfolding same_id
same_id→eq i j h = ground (arith, eq_iff i.instance_name j.instance_name)

pub same_id_refl : (i : LineId) → same_id i i ≡ true
unfolding same_id
same_id_refl i = ground (arith, eq_iff i.instance_name i.instance_name)

-- A line with the identifier.
abbrev pub identified : LineId → String → RollupCounts → RollupLine
identified i k delta = record { key = k; id = some i; delta = delta }

abbrev prepend : Bool → RollupLine → List RollupLine → List RollupLine
prepend fits l ls = if fits then l ∷ ls else ls

prepend-append :
    (fits : Bool) (l : RollupLine) (ls rs : List RollupLine)
    → prepend fits l (ls ++ rs) ≡ prepend fits l ls ++ rs
prepend-append true l ls rs = refl
prepend-append false l ls rs = refl

module _ (recent : String → Bool) where
  read_none :
      (known : List LineId) (m : RollupLine) (log : List RollupLine)
      → m.id ≡ none
      → read_lines recent known (m ∷ log) ≡ prepend (recent m.key) m (read_lines recent known log)
  unfolding read_lines
  read_none known m log e =
      ap
        (λ (o : Option LineId). elim o [
          | none ↦ prepend (recent m.key) m (read_lines recent known log)
          | some i ↦
              if seen i known
              then read_lines recent known log
              else prepend (recent m.key) m (read_lines recent (i ∷ known) log)
        ])
        e

  read_some :
      (known : List LineId) (m : RollupLine) (log : List RollupLine) (j : LineId)
      → m.id ≡ some j
      → read_lines recent known (m ∷ log) ≡ (
          if seen j known
          then read_lines recent known log
          else prepend (recent m.key) m (read_lines recent (j ∷ known) log))
  unfolding read_lines
  read_some known m log j e =
      ap
        (λ (o : Option LineId). elim o [
          | none ↦ prepend (recent m.key) m (read_lines recent known log)
          | some i ↦
              if seen i known
              then read_lines recent known log
              else prepend (recent m.key) m (read_lines recent (i ∷ known) log)
        ])
        e

  read_dup :
      (known : List LineId) (m : RollupLine) (log : List RollupLine) (j : LineId)
      → m.id ≡ some j
      → seen j known ≡ true
      → read_lines recent known (m ∷ log) ≡ read_lines recent known log
  read_dup known m log j found dup = ground (arith, read_some known m log j found, dup)

  read_new :
      (known : List LineId) (m : RollupLine) (log : List RollupLine) (j : LineId)
      → m.id ≡ some j
      → seen j known ≡ false
      → read_lines recent known (m ∷ log)
        ≡ prepend (recent m.key) m (read_lines recent (j ∷ known) log)
  read_new known m log j found other = ground (arith, read_some known m log j found, other)

  -- What a line at the end adds to what is read.
  abbrev read_last : Bool → LineId → String → RollupCounts → List RollupLine
  read_last dup i k delta = if dup then [] else prepend (recent k) (identified i k delta) []

  read_lines-snoc :
      (i : LineId) (k : String) (delta : RollupCounts) (known : List LineId) (log : List RollupLine)
      → read_lines recent known (log ++ identified i k delta ∷ [])
        ≡ read_lines recent known log ++ read_last (seen i known || holds i log) i k delta
  unfolding read_lines holds seen
  read_lines-snoc i k delta known [] = ap (λ b. read_last b i k delta) (ground arith)
  read_lines-snoc i k delta known (m ∷ log) = elim (Option-cases m.id) [
    | inl missing ↦
        read_none known m (log ++ identified i k delta ∷ []) missing
        ∙ ap (prepend (recent m.key) m) (read_lines-snoc i k delta known log)
        ∙ prepend-append (recent m.key) m _ _
        ∙ sym (
            ap (λ ls. ls ++ read_last (seen i known || holds i log) i k delta)
              (read_none known m log missing))
        ∙ ap (λ b. read_lines recent known (m ∷ log) ++ read_last b i k delta)
            (ground (arith, missing))
    | inr (j, found) ↦ elim (Bool-cases (seen j known)) [
      | inl dup ↦
          read_dup known m (log ++ identified i k delta ∷ []) j found dup
          ∙ read_lines-snoc i k delta known log
          ∙ sym (
              ap (λ ls. ls ++ read_last (seen i known || holds i log) i k delta)
                (read_dup known m log j found dup))
          ∙ ap (λ b. read_lines recent known (m ∷ log) ++ read_last b i k delta)
              (ground (arith, found, dup, same_id→eq j i))
      | inr other ↦
          read_new known m (log ++ identified i k delta ∷ []) j found other
          ∙ ap (prepend (recent m.key) m) (read_lines-snoc i k delta (j ∷ known) log)
          ∙ prepend-append (recent m.key) m _ _
          ∙ sym (
              ap (λ ls. ls ++ read_last (seen i (j ∷ known) || holds i log) i k delta)
                (read_new known m log j found other))
          ∙ ap (λ b. read_lines recent known (m ∷ log) ++ read_last b i k delta)
              (ground (arith, found))
    ]
  ]

count-history-snoc :
    (c : Counter) (k : String) (ls : List RollupLine) (l : RollupLine)
    → count c (history k (ls ++ l ∷ [])) ≡ (
        if str_eq l.key k
        then plus (count c (history k ls)) (count c l.delta)
        else count c (history k ls))
unfolding history
count-history-snoc c k [] l =
    ground (arith, count-counts_add c no_counts l.delta, count-no_counts c)
count-history-snoc c k (m ∷ ls) l =
    let tail = count-history-snoc c k ls l in
    let h = count c (history k ls) in
    if_both
      (λ (t : RollupCounts). count c t ≡ (
        if str_eq l.key k
        then plus
            (count c (if str_eq m.key k then counts_add (history k ls) m.delta else history k ls))
            (count c l.delta)
        else count c (if str_eq m.key k then counts_add (history k ls) m.delta else history k ls)))
      (str_eq m.key k) (counts_add (history k (ls ++ l ∷ [])) m.delta) (history k (ls ++ l ∷ []))
      (λ mine. ground (
        arith,
        mine,
        tail,
        count-counts_add c (history k (ls ++ l ∷ [])) m.delta,
        count-counts_add c (history k ls) m.delta,
        plus_assoc h (count c l.delta) (count c m.delta),
        plus_assoc h (count c m.delta) (count c l.delta),
        plus_comm (count c l.delta) (count c m.delta),
      ))
      (λ other. ground (arith, other, tail))

-- What the lines that are read give for a counter of a key.
abbrev pub sum_read : (String → Bool) → Counter → String → List RollupLine → ℕ
sum_read recent c k log = count c (history k (read_lines recent [] log))

append-nil : (ls : List RollupLine) → ls ++ [] ≡ ls
append-nil [] = refl
append-nil (l ∷ ls) = ap (λ rest. l ∷ rest) (append-nil ls)

pub sum_read-snoc :
    (recent : String → Bool) (c : Counter) (k j : String) (i : LineId) (delta : RollupCounts)
    (log : List RollupLine)
    → recent k ≡ true
    → sum_read recent c k (log ++ identified i j delta ∷ []) ≡ (
        if holds i log
        then sum_read recent c k log
        else if str_eq j k
        then plus (sum_read recent c k log) (count c delta)
        else sum_read recent c k log)
unfolding seen
sum_read-snoc recent c k j i delta log kept =
    ap (λ ls. count c (history k ls)) (read_lines-snoc recent i j delta [] log)
    ∙ elim (Bool-cases (holds i log)) [
      | inl dup ↦ ground (arith, dup, append-nil (read_lines recent [] log))
      | inr new_one ↦ elim (Bool-cases (recent j)) [
        | inl fits ↦ ground (
          arith,
          new_one,
          fits,
          count-history-snoc c k (read_lines recent [] log) (identified i j delta),
        )
        | inr old ↦
            ground (arith, new_one, old, append-nil (read_lines recent [] log), eq_iff j k, kept)
      ]
    ]

pub holds-snoc :
    (n i : LineId) (k : String) (delta : RollupCounts) (log : List RollupLine)
    → holds n (log ++ identified i k delta ∷ []) ≡ holds n log || same_id i n
unfolding holds
holds-snoc n i k delta [] = ground arith
holds-snoc n i k delta (m ∷ log) = elim (Option-cases m.id) [
  | inl missing ↦ ground (arith, missing, holds-snoc n i k delta log)
  | inr (j, found) ↦ ground (arith, found, holds-snoc n i k delta log)
]
