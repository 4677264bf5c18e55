-- ===== src/Usage/Counts.antt =====
-- The counts of usage_tokens.go one by one, and the check of subsets.
use claude_gateway.Prelude.{
  ℕ, ◌+◌, ◌-◌, ◌≤◌, String, true, false, ◌||◌, Option, none, some, ◌≡◌, refl, sym, subst, if_both,
  arith,
}
use claude_gateway.Json.{
  Value, Members, number, fraction, pos, negsuc, null, text, array, object, boolean, get, has,
}
use claude_gateway.Usage.{
  Source, anthropic, openai_chat, TokenUsage, new_usage, max_int64, count_pointer, assign_count,
  sum_from, differs, exceeds, split_differs, check_usage_subsets, anthropic_total, Telemetry,
}

-- A count that an int64 holds.
abbrev pub IsCount : Option ℕ → Type 0
IsCount c = (n : ℕ) → c ≡ some n → n ≤ max_int64

pub record IsBounded (u : TokenUsage) : Type 0 where
  pub uncached : IsCount u.input_uncached
  pub total : IsCount u.input_total
  pub read : IsCount u.cache_read
  pub creation : IsCount u.cache_creation
  pub creation_5m : IsCount u.cache_creation_5m
  pub creation_1h : IsCount u.cache_creation_1h
  pub output : IsCount u.output
  pub reasoning : IsCount u.reasoning

-- What a total is made of: with Anthropic it is the sum of three counts that are known, with
-- OpenAI it includes what was read from the cache.
abbrev pub HasTotal : Source → TokenUsage → Type 0
HasTotal anthropic u =
    (t : ℕ)
    → u.input_total ≡ some t
    → (a : ℕ) × (b : ℕ) × (c : ℕ) × (u.input_uncached ≡ some a)
      × (u.cache_read ≡ some b)
      × (u.cache_creation ≡ some c)
      × (t ≡ a + b + c)
HasTotal openai_chat u =
    u.inconsistent ≡ false
    → (t c : ℕ) → u.input_total ≡ some t
    → u.cache_read ≡ some c
    → (c ≤ t) × (u.input_uncached ≡ some (t - c))

-- The subsets of a usage that is not marked as inconsistent.
pub record HasSubsets (u : TokenUsage) : Type 0 where
  pub part : (r o : ℕ) → u.reasoning ≡ some r → u.output ≡ some o → r ≤ o
  pub split :
      (w s l : ℕ)
      → u.cache_creation ≡ some w
      → u.cache_creation_5m ≡ some s
      → u.cache_creation_1h ≡ some l
      → w ≡ s + l

pub record IsCoherent (u : TokenUsage) : Type 0 where
  pub bounded : IsBounded u
  pub total : HasTotal u.source u
  pub subsets : u.inconsistent ≡ false → HasSubsets u

pub none-IsCount : IsCount none
none-IsCount n e = ground arith

pub count_pointer-IsCount : (v : Value) → IsCount (count_pointer v)
unfolding count_pointer
count_pointer-IsCount (number (pos m)) n e = ground arith
count_pointer-IsCount (number (negsuc m)) n e = ground arith
count_pointer-IsCount (fraction z) n e = ground arith
count_pointer-IsCount null n e = ground arith
count_pointer-IsCount (text s) n e = ground arith
count_pointer-IsCount (array xs) n e = ground arith
count_pointer-IsCount (object fs) n e = ground arith
count_pointer-IsCount (boolean b) n e = ground arith

pub assign_count-IsCount :
    (target : Option ℕ) (fields : Members) (key : String)
    → IsCount target
    → IsCount (assign_count target fields key)
unfolding assign_count
assign_count-IsCount target fields key h =
    if_both IsCount (has key fields) (count_pointer (get key fields)) target
      (λ found. count_pointer-IsCount (get key fields)) (λ missing. h)

pub anthropic_total-IsCount : (a b c : Option ℕ) → IsCount c → IsCount (anthropic_total a b c)
unfolding anthropic_total sum_from
anthropic_total-IsCount (some a) (some b) (some c) h n e = ground (arith, h c refl)
anthropic_total-IsCount none b c h n e = ground arith
anthropic_total-IsCount (some a) none c h n e = ground arith
anthropic_total-IsCount (some a) (some b) none h n e = ground arith

pub anthropic_total_parts :
    (x y z : Option ℕ) (t : ℕ)
    → anthropic_total x y z ≡ some t
    → (a : ℕ) × (b : ℕ) × (c : ℕ) × (x ≡ some a) × (y ≡ some b) × (z ≡ some c) × (t ≡ a + b + c)
unfolding anthropic_total sum_from
anthropic_total_parts (some a) (some b) (some c) t e = (a, b, c, refl, refl, refl, ground arith)
anthropic_total_parts none y z t e = ground arith
anthropic_total_parts (some a) none z t e = ground arith
anthropic_total_parts (some a) (some b) none t e = ground arith

pub exceeds_part :
    (part whole : Option ℕ) (r o : ℕ)
    → exceeds part whole ≡ false
    → part ≡ some r
    → whole ≡ some o
    → r ≤ o
unfolding exceeds
exceeds_part part whole r o h p w = ground arith

pub split_differs_sum :
    (whole short long : Option ℕ) (w s l : ℕ)
    → split_differs whole short long ≡ false
    → whole ≡ some w
    → short ≡ some s
    → long ≡ some l
    → w ≡ s + l
unfolding split_differs differs sum_from
split_differs_sum (some whole) (some short) (some long) w s l h x y z = ground arith
split_differs_sum none short long w s l h x y z = ground arith
split_differs_sum (some whole) none long w s l h x y z = ground arith
split_differs_sum (some whole) (some short) none w s l h x y z = ground arith

-- The last check: it only marks the usage, and what it does not mark has its subsets.
pub check_usage_subsets-HasSubsets :
    (u : TokenUsage)
    → (check_usage_subsets u).inconsistent ≡ false
    → HasSubsets (check_usage_subsets u)
unfolding check_usage_subsets
check_usage_subsets-HasSubsets u fine =
    let few = exceeds u.reasoning u.output in
    let split = split_differs u.cache_creation u.cache_creation_5m u.cache_creation_1h in
    let part : few ≡ false = ground arith in
    let whole : split ≡ false = ground arith in
    let same : (check_usage_subsets u) ≡ u = ground (arith, part, whole) in
    subst HasSubsets (sym same) (record {
      part = λ r o. exceeds_part u.reasoning u.output r o part;
      split = λ w s l.
          split_differs_sum u.cache_creation u.cache_creation_5m u.cache_creation_1h w s l whole;
    })

pub check_usage_subsets-IsBounded :
    (u : TokenUsage) → IsBounded u → IsBounded (check_usage_subsets u)
unfolding check_usage_subsets
check_usage_subsets-IsBounded u b =
    if_both IsBounded
      (exceeds u.reasoning u.output
        || split_differs u.cache_creation u.cache_creation_5m u.cache_creation_1h)
      (record u { inconsistent = true }) u
      (λ h. record {
        uncached = b.uncached;
        total = b.total;
        read = b.read;
        creation = b.creation;
        creation_5m = b.creation_5m;
        creation_1h = b.creation_1h;
        output = b.output;
        reasoning = b.reasoning;
      })
      (λ h. b)

pub marked-HasTotal :
    (s : Source) (u : TokenUsage) → HasTotal s u → HasTotal s (record u { inconsistent = true })
marked-HasTotal anthropic u h = h
marked-HasTotal openai_chat u h = λ absurd_mark. ground arith

pub check_usage_subsets-IsCoherent :
    (u : TokenUsage) → IsBounded u → HasTotal u.source u → IsCoherent (check_usage_subsets u)
unfolding check_usage_subsets
check_usage_subsets-IsCoherent u b h = record {
  bounded = check_usage_subsets-IsBounded u b;
  total =
      if_both (λ (v : TokenUsage). HasTotal v.source v)
        (exceeds u.reasoning u.output
          || split_differs u.cache_creation u.cache_creation_5m u.cache_creation_1h)
        (record u { inconsistent = true }) u (λ e. marked-HasTotal u.source u h) (λ e. h);
  subsets = check_usage_subsets-HasSubsets u;
}

pub new_usage-IsBounded : (source : Source) → IsBounded (new_usage source)
new_usage-IsBounded source = record {
  uncached = none-IsCount;
  total = none-IsCount;
  read = none-IsCount;
  creation = none-IsCount;
  creation_5m = none-IsCount;
  creation_1h = none-IsCount;
  output = none-IsCount;
  reasoning = none-IsCount;
}

pub new_usage-IsCoherent : (source : Source) → IsCoherent (new_usage source)
new_usage-IsCoherent source = record {
  bounded = new_usage-IsBounded source;
  total = empty_total source;
  subsets = λ h. record { part = λ r o e g. ground arith; split = λ w s l e g f. ground arith };
}
  where
    empty_total : (source : Source) → HasTotal source (new_usage source)
    empty_total anthropic = λ t e. ground arith
    empty_total openai_chat = λ h t c e g. ground arith

-- What an observation starts from is coherent where the telemetry is.
abbrev pub Sound : Telemetry → Type 0
Sound t = (u : TokenUsage) → t ≡ some u → IsCoherent u
