-- ===== src/Rollup/Counters.antt =====
-- The counters of a `rollupCounts` of rollups.go, and what its sums and differences do to each.
use claude_gateway.Prelude.{
  ℕ, zero, suc, ◌%◌, String, Bool, true, ◌&&◌, List, [], ◌∷◌, ◌==◌, ◌≡◌, refl, sym, ap, ◌∙◌, str_eq,
  eq_iff, if◌then◌else◌, if_both, arith,
}
use claude_gateway.Rollup.{
  width, plus, minus, Counts, bump, bump_all, cut_all, drop_zeros, map_sub, map_add,
  slice_differences, all_zero, slice_sub, slice_add, RollupCounts, no_counts, counts_sub,
  counts_add, counts_zero, is_nil,
}

-- What a map holds at a key: 0, where there is no entry.
unfoldable pub amount : String → Counts → ℕ
amount k [] = 0
amount k ((j, v) ∷ m) = if str_eq j k then plus v (amount k m) else amount k m

-- What a slice holds at an index: 0 past its end.
unfoldable pub at : ℕ → List ℕ → ℕ
at i [] = 0
at zero (x ∷ xs) = x % width
at (suc i) (x ∷ xs) = at i xs

pub plus_comm : (a b : ℕ) → plus a b ≡ plus b a
plus_comm a b = omega arith

pub plus_assoc : (a b c : ℕ) → plus (plus a b) c ≡ plus a (plus b c)
plus_assoc a b c = omega arith

pub plus-minus : (a b : ℕ) → plus b (minus a b) ≡ a % width
plus-minus a b = omega arith

amount-bump :
    (k j : String) (v : ℕ) (m : Counts)
    → amount k (bump j v m) ≡ (if str_eq j k then plus (amount k m) v else amount k m)
unfolding amount bump
amount-bump k j v [] = ground arith
amount-bump k j v ((i, w) ∷ m) = ground (
  arith,
  amount-bump k j v m,
  eq_iff i j,
  eq_iff i k,
  eq_iff j k,
  plus_assoc w (amount k m) v,
  plus_assoc w v (amount k m),
  plus_comm (amount k m) v,
)

amount_word : (k : String) (m : Counts) → amount k m % width ≡ amount k m
unfolding amount
amount_word k [] = refl
amount_word k ((j, v) ∷ m) =
    if_both (λ n. n % width ≡ n) (str_eq j k) (plus v (amount k m)) (amount k m) (λ h. omega arith)
      (λ h. amount_word k m)

at_word : (i : ℕ) (xs : List ℕ) → at i xs % width ≡ at i xs
unfolding at
at_word i [] = refl
at_word zero (x ∷ xs) = omega arith
at_word (suc i) (x ∷ xs) = at_word i xs

amount-bump_all :
    (k : String) (m out : Counts) → amount k (bump_all m out) ≡ plus (amount k out) (amount k m)
unfolding amount bump_all
amount-bump_all k [] out = omega (arith, amount_word k out)
amount-bump_all k ((j, v) ∷ m) out =
    let tail = amount-bump_all k m (bump j v out) in
    let head = amount-bump k j v out in
    let assoc = plus_assoc (amount k out) v (amount k m) in ground (arith, tail, head, assoc)

amount-cut_all :
    (k : String) (m out : Counts) → amount k (cut_all m out) ≡ minus (amount k out) (amount k m)
unfolding amount cut_all
amount-cut_all k [] out = omega (arith, amount_word k out)
amount-cut_all k ((j, v) ∷ m) out =
    let tail = amount-cut_all k m (bump j (minus 0 v) out) in
    let head = amount-bump k j (minus 0 v) out in
    let twice : minus (plus (amount k out) (minus 0 v)) (amount k m)
        ≡ minus (amount k out) (plus v (amount k m)) =
      (omega arith) in
    ground (arith, tail, head, twice)

amount-drop_zeros : (k : String) (m : Counts) → amount k (drop_zeros m) ≡ amount k m
unfolding amount drop_zeros
amount-drop_zeros k [] = refl
amount-drop_zeros k ((j, v) ∷ m) =
    let word = amount_word k m in
    let skip : v ≡ 0 → plus v (amount k m) ≡ amount k m = (λ h. omega (arith, h, word)) in
    ground (arith, amount-drop_zeros k m, skip)

pub amount-map_sub :
    (k : String) (a b : Counts) → amount k (map_sub a b) ≡ minus (amount k a) (amount k b)
unfolding amount map_sub
amount-map_sub k a b =
    amount-drop_zeros k (cut_all b (bump_all a []))
    ∙ amount-cut_all k b (bump_all a [])
    ∙ ap (λ n. minus n (amount k b)) (amount-bump_all k a [] ∙ omega (arith, amount_word k a))

pub amount-map_add :
    (k : String) (dst src : Counts)
    → amount k (map_add dst src) ≡ plus (amount k dst) (amount k src)
unfolding amount map_add
amount-map_add k dst [] = omega (arith, amount_word k dst)
amount-map_add k dst ((j, v) ∷ src) =
    let skipped : v ≡ 0 → plus v (amount k src) ≡ amount k src =
      (λ h. omega (arith, h, amount_word k src)) in
    if_both
      (λ (m : Counts).
        amount k (map_add m src)
        ≡ plus (amount k dst) (if str_eq j k then plus v (amount k src) else amount k src))
      (v == 0) dst (bump j v dst)
      (λ h. let tail = amount-map_add k dst src in ground (arith, tail, skipped, h))
      (λ h.
        let tail = amount-map_add k (bump j v dst) src in
        let head = amount-bump k j v dst in
        let assoc = plus_assoc (amount k dst) v (amount k src) in ground (arith, tail, head, assoc))

at-slice_differences :
    (i : ℕ) (a b : List ℕ) → at i (slice_differences a b) ≡ minus (at i a) (at i b)
unfolding at slice_differences
at-slice_differences i [] [] = refl
at-slice_differences zero [] (y ∷ ys) = omega arith
at-slice_differences (suc i) [] (y ∷ ys) = at-slice_differences i [] ys
at-slice_differences zero (x ∷ xs) [] = omega arith
at-slice_differences (suc i) (x ∷ xs) [] = at-slice_differences i xs []
at-slice_differences zero (x ∷ xs) (y ∷ ys) = omega arith
at-slice_differences (suc i) (x ∷ xs) (y ∷ ys) = at-slice_differences i xs ys

at_zero : (i : ℕ) (xs : List ℕ) → all_zero xs ≡ true → at i xs ≡ 0
unfolding at all_zero
at_zero i [] h = refl
at_zero zero (x ∷ xs) h = ground arith
at_zero (suc i) (x ∷ xs) h = at_zero i xs (ground arith)

pub at-slice_sub : (i : ℕ) (a b : List ℕ) → at i (slice_sub a b) ≡ minus (at i a) (at i b)
unfolding slice_sub at
at-slice_sub i a b =
    if_both (λ (xs : List ℕ). at i xs ≡ minus (at i a) (at i b)) (all_zero (slice_differences a b))
      [] (slice_differences a b)
      (λ h. sym (at_zero i (slice_differences a b) h) ∙ at-slice_differences i a b)
      (λ h. at-slice_differences i a b)

pub at-slice_add : (i : ℕ) (a b : List ℕ) → at i (slice_add a b) ≡ plus (at i a) (at i b)
unfolding at slice_add
at-slice_add i xs [] = omega (arith, at_word i xs)
at-slice_add zero [] (y ∷ ys) = omega arith
at-slice_add (suc i) [] (y ∷ ys) = at-slice_add i [] ys
at-slice_add zero (x ∷ xs) (y ∷ ys) = omega arith
at-slice_add (suc i) (x ∷ xs) (y ∷ ys) = at-slice_add i xs ys

-- The counters, one for each number that a `rollupCounts` holds.
pub data Counter : Type 0 where
  records completions successes failures fallbacks cancels count_tokens : Counter
  input_tokens output_tokens cache_read_tokens cache_write_tokens : Counter
  failed_tokens large_contexts : Counter
  policy_skips failure_reasons usage_known usage_totals : (key : String) → Counter
  header_latency first_content tps : (index : ℕ) → Counter

unfoldable pub count : Counter → RollupCounts → ℕ
count records c = c.records % width
count completions c = c.completions % width
count successes c = c.successes % width
count failures c = c.failures % width
count fallbacks c = c.fallbacks % width
count cancels c = c.cancels % width
count count_tokens c = c.count_tokens % width
count input_tokens c = c.input_tokens % width
count output_tokens c = c.output_tokens % width
count cache_read_tokens c = c.cache_read_tokens % width
count cache_write_tokens c = c.cache_write_tokens % width
count failed_tokens c = c.failed_tokens % width
count large_contexts c = c.large_contexts % width
count (policy_skips key) c = amount key c.policy_skips
count (failure_reasons key) c = amount key c.failure_reasons
count (usage_known key) c = amount key c.usage_known
count (usage_totals key) c = amount key c.usage_totals
count (header_latency index) c = at index c.header_latency
count (first_content index) c = at index c.first_content
count (tps index) c = at index c.tps

minus_word : (a b : ℕ) → minus a b % width ≡ minus (a % width) (b % width)
minus_word a b = omega arith

plus_word : (a b : ℕ) → plus a b % width ≡ plus (a % width) (b % width)
plus_word a b = omega arith

pub count-counts_sub :
    (c : Counter) (a b : RollupCounts) → count c (counts_sub a b) ≡ minus (count c a) (count c b)
unfolding count counts_sub
count-counts_sub records a b = minus_word a.records b.records
count-counts_sub completions a b = minus_word a.completions b.completions
count-counts_sub successes a b = minus_word a.successes b.successes
count-counts_sub failures a b = minus_word a.failures b.failures
count-counts_sub fallbacks a b = minus_word a.fallbacks b.fallbacks
count-counts_sub cancels a b = minus_word a.cancels b.cancels
count-counts_sub count_tokens a b = minus_word a.count_tokens b.count_tokens
count-counts_sub input_tokens a b = minus_word a.input_tokens b.input_tokens
count-counts_sub output_tokens a b = minus_word a.output_tokens b.output_tokens
count-counts_sub cache_read_tokens a b = minus_word a.cache_read_tokens b.cache_read_tokens
count-counts_sub cache_write_tokens a b = minus_word a.cache_write_tokens b.cache_write_tokens
count-counts_sub failed_tokens a b = minus_word a.failed_tokens b.failed_tokens
count-counts_sub large_contexts a b = minus_word a.large_contexts b.large_contexts
count-counts_sub (policy_skips key) a b = amount-map_sub key a.policy_skips b.policy_skips
count-counts_sub (failure_reasons key) a b = amount-map_sub key a.failure_reasons b.failure_reasons
count-counts_sub (usage_known key) a b = amount-map_sub key a.usage_known b.usage_known
count-counts_sub (usage_totals key) a b = amount-map_sub key a.usage_totals b.usage_totals
count-counts_sub (header_latency index) a b = at-slice_sub index a.header_latency b.header_latency
count-counts_sub (first_content index) a b = at-slice_sub index a.first_content b.first_content
count-counts_sub (tps index) a b = at-slice_sub index a.tps b.tps

pub count-counts_add :
    (c : Counter) (a b : RollupCounts) → count c (counts_add a b) ≡ plus (count c a) (count c b)
unfolding count counts_add
count-counts_add records a b = plus_word a.records b.records
count-counts_add completions a b = plus_word a.completions b.completions
count-counts_add successes a b = plus_word a.successes b.successes
count-counts_add failures a b = plus_word a.failures b.failures
count-counts_add fallbacks a b = plus_word a.fallbacks b.fallbacks
count-counts_add cancels a b = plus_word a.cancels b.cancels
count-counts_add count_tokens a b = plus_word a.count_tokens b.count_tokens
count-counts_add input_tokens a b = plus_word a.input_tokens b.input_tokens
count-counts_add output_tokens a b = plus_word a.output_tokens b.output_tokens
count-counts_add cache_read_tokens a b = plus_word a.cache_read_tokens b.cache_read_tokens
count-counts_add cache_write_tokens a b = plus_word a.cache_write_tokens b.cache_write_tokens
count-counts_add failed_tokens a b = plus_word a.failed_tokens b.failed_tokens
count-counts_add large_contexts a b = plus_word a.large_contexts b.large_contexts
count-counts_add (policy_skips key) a b = amount-map_add key a.policy_skips b.policy_skips
count-counts_add (failure_reasons key) a b = amount-map_add key a.failure_reasons b.failure_reasons
count-counts_add (usage_known key) a b = amount-map_add key a.usage_known b.usage_known
count-counts_add (usage_totals key) a b = amount-map_add key a.usage_totals b.usage_totals
count-counts_add (header_latency index) a b = at-slice_add index a.header_latency b.header_latency
count-counts_add (first_content index) a b = at-slice_add index a.first_content b.first_content
count-counts_add (tps index) a b = at-slice_add index a.tps b.tps

pub count-no_counts : (c : Counter) → count c no_counts ≡ 0
unfolding count amount at
count-no_counts c = ground arith

both : (a b : Bool) → (a && b) ≡ true → (a ≡ true) × (b ≡ true)
both a b h = ground arith

number_zero : (n : ℕ) → (n == 0) ≡ true → n % width ≡ 0
number_zero n h = ground arith

amount_nil : (k : String) (m : Counts) → is_nil m ≡ true → amount k m ≡ 0
unfolding amount
amount_nil k [] h = refl
amount_nil k (x ∷ m) h = ground arith

at_nil : (i : ℕ) (xs : List ℕ) → is_nil xs ≡ true → at i xs ≡ 0
unfolding at
at_nil i [] h = refl
at_nil i (x ∷ xs) h = ground arith

-- A difference that is zero has no counter that is not.
pub count_zero : (c : Counter) (d : RollupCounts) → counts_zero d ≡ true → count c d ≡ 0
unfolding count counts_zero
count_zero records d h = ground arith
count_zero completions d h = ground arith
count_zero successes d h = ground arith
count_zero failures d h = ground arith
count_zero fallbacks d h = ground arith
count_zero cancels d h = ground arith
count_zero count_tokens d h = ground arith
count_zero input_tokens d h = ground arith
count_zero output_tokens d h = ground arith
count_zero cache_read_tokens d h = ground arith
count_zero cache_write_tokens d h = ground arith
count_zero failed_tokens d h = ground arith
count_zero large_contexts d h = ground arith
count_zero (policy_skips key) d h = amount_nil key d.policy_skips (ground arith)
count_zero (failure_reasons key) d h = amount_nil key d.failure_reasons (ground arith)
count_zero (usage_known key) d h = amount_nil key d.usage_known (ground arith)
count_zero (usage_totals key) d h = amount_nil key d.usage_totals (ground arith)
count_zero (header_latency index) d h = at_nil index d.header_latency (ground arith)
count_zero (first_content index) d h = at_nil index d.first_content (ground arith)
count_zero (tps index) d h = at_nil index d.tps (ground arith)

pub count_word : (c : Counter) (d : RollupCounts) → count c d % width ≡ count c d
unfolding count
count_word (policy_skips key) d = amount_word key d.policy_skips
count_word (failure_reasons key) d = amount_word key d.failure_reasons
count_word (usage_known key) d = amount_word key d.usage_known
count_word (usage_totals key) d = amount_word key d.usage_totals
count_word (header_latency index) d = at_word index d.header_latency
count_word (first_content index) d = at_word index d.first_content
count_word (tps index) d = at_word index d.tps
count_word c d = omega arith

-- What is flushed and what is left to flush make the whole, in every counter and also where an
-- int64 wraps around.
pub count-counts_add-counts_sub :
    (c : Counter) (a b : RollupCounts) → count c (counts_add b (counts_sub a b)) ≡ count c a
count-counts_add-counts_sub c a b =
    count-counts_add c b (counts_sub a b)
    ∙ ap (plus (count c b)) (count-counts_sub c a b)
    ∙ plus-minus (count c a) (count c b)
    ∙ count_word c a
