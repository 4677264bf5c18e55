-- ===== src/Load/Count.antt =====
-- The counters of the routes agree with the reservations that are not released.
use claude_gateway.Prelude.{
  ℕ, ◌+◌, zero, suc, String, Bool, true, false, Option, none, some, List, [], ◌∷◌, ◌++◌, ◌≡◌, refl,
  ap, ◌∙◌, lookup, lookup-insert, lookup-erase, get_elem?, str_eq, str_eq_refl, eq_iff,
  if◌then◌else◌, Option-cases, inl, inr, arith,
}
use claude_gateway.Load.{
  Loads, no_loads, in_flight_count, reserve_route, give_back, mark_done, release_route,
}

pub data Call : Type 0 where
  reserves : (key : String) → Call
  releases : (number : ℕ) → Call

unfoldable pub run : List Call → Loads → Loads
run [] s = s
run (reserves key ∷ cs) s = run cs (reserve_route key s)
run (releases number ∷ cs) s = run cs (release_route number s)

-- The reservations of a key whose release has not run.
unfoldable pub unreleased : String → List (String × Bool) → ℕ
unreleased k [] = 0
unreleased k ((key, used) ∷ hs) =
    if used then unreleased k hs else (if str_eq key k then 1 else 0) + unreleased k hs

-- A counter is kept only while it is positive.
abbrev pub entry : ℕ → Option ℕ
entry zero = none
entry (suc n) = some (suc n)

abbrev pub Agrees : Loads → Type 0
Agrees s = (k : String) → lookup k s.in_flight ≡ entry (unreleased k s.handles)

unreleased-append :
    (k key : String) (hs : List (String × Bool))
    → unreleased k (hs ++ (key, false) ∷ []) ≡ (if str_eq key k then 1 else 0) + unreleased k hs
unfolding unreleased
unreleased-append k key [] = refl
unreleased-append k key ((other, used) ∷ hs) = ground (arith, unreleased-append k key hs)

unreleased-mark_done :
    (k key : String) (i : ℕ) (hs : List (String × Bool))
    → get_elem? hs i ≡ some (key, false)
    → unreleased k hs ≡ (if str_eq key k then 1 else 0) + unreleased k (mark_done i hs)
unfolding unreleased mark_done
unreleased-mark_done k key i [] found = ground arith
unreleased-mark_done k key zero ((other, used) ∷ hs) found = ground arith
unreleased-mark_done k key (suc i) ((other, used) ∷ hs) found =
    ground (arith, unreleased-mark_done k key i hs found)

reserve_route-Agrees : (key : String) (s : Loads) → Agrees s → Agrees (reserve_route key s)
unfolding reserve_route in_flight_count
reserve_route-Agrees key s a k = ground (
  arith,
  a k,
  a key,
  eq_iff key k,
  lookup-insert key k (suc (in_flight_count key s.in_flight)) s.in_flight,
  unreleased-append k key s.handles,
)

lookup-give_back :
    (key k : String) (m : List (String × ℕ)) (n : ℕ)
    → lookup key m ≡ some (suc n)
    → lookup k (give_back key m) ≡ (if str_eq key k then entry n else lookup k m)
unfolding give_back in_flight_count
lookup-give_back key k m n found =
    ground (arith, found, lookup-insert key k n m, lookup-erase key k m)

release_route-Agrees : (i : ℕ) (s : Loads) → Agrees s → Agrees (release_route i s)
unfolding release_route
release_route-Agrees i s a k = elim (Option-cases (get_elem? s.handles i)) [
  | inl missing ↦ ground (arith, missing, a k)
  | inr ((key, true), found) ↦ ground (arith, found, a k)
  | inr ((key, false), found) ↦
      let counted = unreleased-mark_done key key i s.handles found in
      let held = a key ∙ ap entry counted in
      ground (
        arith,
        found,
        a k,
        str_eq_refl key,
        eq_iff key k,
        unreleased-mark_done k key i s.handles found,
        held,
        lookup-give_back key k s.in_flight (unreleased key (mark_done i s.handles)),
      )
]

-- After any calls of `reserveRoute` and of the functions it returned, in whatever order and
-- however often, the map has for each route the number of its reservations that are not released,
-- and has no entry for a route without one.
pub run-Agrees : (h : List Call) → Agrees (run h no_loads)
unfolding run unreleased
run-Agrees h = kept h no_loads (λ k. none_yet k)
  where
    none_yet : (k : String) → none ≡ entry (unreleased k [])
    none_yet k = refl

    kept : (h : List Call) (s : Loads) → Agrees s → Agrees (run h s)
    kept [] s a = a
    kept (reserves key ∷ cs) s a = kept cs (reserve_route key s) (reserve_route-Agrees key s a)
    kept (releases i ∷ cs) s a = kept cs (release_route i s) (release_route-Agrees i s a)
