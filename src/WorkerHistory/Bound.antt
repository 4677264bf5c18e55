-- ===== src/WorkerHistory/Bound.antt =====
-- How much `rememberWorkerUsageLocked` of worker_budget.go remembers.
use claude_gateway.Prelude.{
  ℕ, ◌+◌, ◌*◌, ◌≤◌, String, Bool, true, false, not, ◌||◌, List, [], ◌∷◌, ◌++◌, ◌≡◌, sym, subst,
  str_eq, insert, lookup-insert, keep, length, length-append, All, minute, if◌then◌else◌, if_both,
  arith,
}
use claude_gateway.WorkerHistory.{
  Snapshot, History, last, is_recent, too_soon, remember, history_of, remember_worker_usage,
}

-- The snapshots are five minutes apart, the first not before `lo`.
abbrev pub Spaced : ℕ → History → Type 0
Spaced lo [] = Unit
Spaced lo (s ∷ rest) = (lo ≤ s.fetched_at) × Spaced (s.fetched_at + 5 * minute) rest

abbrev Before : ℕ → History → Type 0
Before at h = All (λ (s : Snapshot). s.fetched_at + 5 * minute ≤ at) h

Spaced-weaken : (lo hi : ℕ) (h : History) → lo ≤ hi → Spaced hi h → Spaced lo h
Spaced-weaken lo hi [] le sp = sp
Spaced-weaken lo hi (s ∷ rest) le sp = (omega (arith, le, sp.0), sp.1)

Spaced-keep : (p : Snapshot → Bool) (lo : ℕ) (h : History) → Spaced lo h → Spaced lo (keep p h)
Spaced-keep p lo [] sp = sp
Spaced-keep p lo (s ∷ rest) sp =
    let later = Spaced-keep p (s.fetched_at + 5 * minute) rest sp.1 in
    if_both (Spaced lo) (p s) (s ∷ keep p rest) (keep p rest) (λ e. (sp.0, later))
      (λ e. Spaced-weaken lo (s.fetched_at + 5 * minute) (keep p rest) (omega (arith, sp.0)) later)

Before-keep : (p : Snapshot → Bool) (at : ℕ) (h : History) → Before at h → Before at (keep p h)
Before-keep p at [] b = b
Before-keep p at (s ∷ rest) b =
    if_both (Before at) (p s) (s ∷ keep p rest) (keep p rest)
      (λ e. (b.0, Before-keep p at rest b.1)) (λ e. Before-keep p at rest b.1)

Spaced-snoc :
    (s : Snapshot) (lo : ℕ) (h : History)
    → lo ≤ s.fetched_at
    → Before s.fetched_at h
    → Spaced lo h
    → Spaced lo (h ++ s ∷ [])
Spaced-snoc s lo [] le b sp = (le, sp)
Spaced-snoc s lo (t ∷ rest) le b sp =
    (sp.0, Spaced-snoc s (t.fetched_at + 5 * minute) rest b.0 b.1 sp.1)

-- What is not too soon after the last snapshot is not too soon after any.
Before-last :
    (s : Snapshot) (lo : ℕ) (h : History)
    → Spaced lo h
    → too_soon s (last h) ≡ false
    → Before s.fetched_at h
unfolding last
Before-last s lo [] sp late = sp
Before-last s lo (t ∷ []) sp late = (ground (arith, late), sp.1)
Before-last s lo (t ∷ u ∷ rest) sp late =
    let later = Before-last s (t.fetched_at + 5 * minute) (u ∷ rest) sp.1 late in
    (omega (arith, later.0, sp.1.0), later)

Spaced-length :
    (at lo : ℕ) (h : History)
    → Spaced lo h
    → Before at h
    → lo ≤ at
    → lo + length h * (5 * minute) ≤ at
Spaced-length at lo [] sp b le = omega (arith, le)
Spaced-length at lo (s ∷ rest) sp b le =
    let later = Spaced-length at (s.fetched_at + 5 * minute) rest sp.1 b.1 b.0 in
    omega (arith, later, sp.0)

keep_recent : (s : Snapshot) (h : History) → All (λ t. is_recent s t ≡ true) (keep (is_recent s) h)
keep_recent s [] = tt
keep_recent s (t ∷ rest) =
    if_both (All (λ u. is_recent s u ≡ true)) (is_recent s t) (t ∷ keep (is_recent s) rest)
      (keep (is_recent s) rest) (λ e. (e, keep_recent s rest)) (λ e. keep_recent s rest)

recent_length :
    (s : Snapshot) (lo : ℕ) (h : History)
    → Spaced lo h
    → Before s.fetched_at h
    → All (λ t. is_recent s t ≡ true) h
    → length h ≤ 6
recent_length s lo [] sp b r = omega arith
recent_length s lo (t ∷ rest) sp b r =
    let later = Spaced-length s.fetched_at (t.fetched_at + 5 * minute) rest sp.1 b.1 b.0 in
    let near : s.fetched_at ≤ t.fetched_at + 30 * minute = ground (arith, r.0) in
    omega (arith, later, near)

-- A history that is spaced and short.
pub record IsBrief (h : History) : Type 0 where
  pub spaced : Spaced 0 h
  pub short : length h ≤ 7

remember-IsBrief : (s : Snapshot) (h : History) → IsBrief h → IsBrief (remember s h)
unfolding remember
remember-IsBrief s h brief =
    if_both IsBrief (too_soon s (last h)) h (keep (is_recent s) h ++ s ∷ []) (λ e. brief)
      (λ late.
        let kept = keep (is_recent s) h in
        let sp = Spaced-keep (is_recent s) 0 h brief.spaced in
        let b = Before-keep (is_recent s) s.fetched_at h (Before-last s 0 h brief.spaced late) in
        let few = recent_length s 0 kept sp b (keep_recent s h) in
        record {
          spaced = Spaced-snoc s 0 kept (omega arith) b sp;
          short = omega (arith, length-append kept (s ∷ []), few);
        })

unfoldable pub remember_all : List Snapshot → List (String × History) → List (String × History)
remember_all [] table = table
remember_all (s ∷ rest) table = remember_all rest (remember_worker_usage s table)

abbrev AllBrief : List (String × History) → Type 0
AllBrief table = (profile : String) → IsBrief (history_of profile table)

history_of-insert :
    (j k : String) (h : History) (table : List (String × History))
    → history_of k (insert j h table) ≡ (if str_eq j k then h else history_of k table)
unfolding history_of
history_of-insert j k h table = ground (arith, lookup-insert j k h table)

step-AllBrief :
    (s : Snapshot) (table : List (String × History))
    → AllBrief table
    → AllBrief (remember_worker_usage s table)
unfolding remember_worker_usage
step-AllBrief s table brief profile =
    if_both (λ t. IsBrief (history_of profile t))
      (not (str_eq s.source "oauth-api") || str_eq s.profile "") table _ (λ e. brief profile)
      (λ e.
        subst IsBrief
          (sym
            (history_of-insert s.profile profile (remember s (history_of s.profile table)) table))
          (if_both IsBrief (str_eq s.profile profile) (remember s (history_of s.profile table))
            (history_of profile table) (λ same. remember-IsBrief s _ (brief s.profile))
            (λ other. brief profile)))

all-AllBrief :
    (xs : List Snapshot) (table : List (String × History))
    → AllBrief table
    → AllBrief (remember_all xs table)
unfolding remember_all
all-AllBrief [] table brief = brief
all-AllBrief (s ∷ rest) table brief =
    all-AllBrief rest (remember_worker_usage s table) (step-AllBrief s table brief)

-- Whatever snapshots come, in whatever order and with whatever times, each profile's history has
-- at most seven of them, and they are at least five minutes apart.
pub remember_all-IsBrief :
    (xs : List Snapshot) (profile : String) → IsBrief (history_of profile (remember_all xs []))
unfolding history_of
remember_all-IsBrief xs profile =
    all-AllBrief xs [] (λ p. record { spaced = tt; short = omega arith }) profile
