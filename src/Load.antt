-- ===== src/Load.antt =====
-- The requests in flight on each route, of anthropic-proxy.go: `routeInFlightCount`, `reserveRoute`
-- and the function that it returns, which its `sync.Once` runs at most once. A reservation is the
-- number of the call of `reserveRoute`, from 0.
pub mod Count
use claude_gateway.Prelude.{
  ℕ, ◌-◌, zero, suc, String, Bool, true, false, Option, none, some, List, [], ◌∷◌, ◌++◌, lookup,
  insert, erase, get_elem?, ltb, if◌then◌else◌,
}

-- `handles` has, for each reservation, its key and whether its release has run.
pub record Loads : Type 0 where
  pub in_flight : List (String × ℕ)
  pub handles : List (String × Bool)

abbrev pub no_loads : Loads
no_loads = record { in_flight = []; handles = [] }

-- A missing key of the map reads as 0.
unfoldable pub in_flight_count : String → List (String × ℕ) → ℕ
in_flight_count key m = elim (lookup key m) [ none ↦ 0 | some n ↦ n ]

unfoldable pub reserve_route : String → Loads → Loads
reserve_route key s = record s {
  in_flight = insert key (suc (in_flight_count key s.in_flight)) s.in_flight;
  handles = s.handles ++ (key, false) ∷ [];
}

unfoldable pub give_back : String → List (String × ℕ) → List (String × ℕ)
give_back key m =
    if ltb 1 (in_flight_count key m) then insert key (in_flight_count key m - 1) m else erase key m

unfoldable pub mark_done : ℕ → List (String × Bool) → List (String × Bool)
mark_done i [] = []
mark_done zero ((key, used) ∷ hs) = (key, true) ∷ hs
mark_done (suc i) (h ∷ hs) = h ∷ mark_done i hs

unfoldable pub release_route : ℕ → Loads → Loads
release_route i s = elim (get_elem? s.handles i) [
  | none ↦ s
  | some handle ↦
      if handle.1
      then s
      else record s { in_flight = give_back handle.0 s.in_flight; handles = mark_done i s.handles }
]
