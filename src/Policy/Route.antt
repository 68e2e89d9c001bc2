-- ===== src/Policy/Route.antt =====
-- `Route` and `RouteMode` of internal/policy/policy.go: how a route step picks the model that
-- answers.
use keera_gateway.Base.{
  String, Bool, false, none, some, List, [], ◌∷◌, ◌&&◌, ◌||◌, ◌==◌, string_eq, not, ltb, length,
  if◌then◌else◌, contains,
}
use keera_gateway.Base.Dict.{Dict, get}
use keera_gateway.Base.Int.{ℤ, pos, ltb_ℤ}

-- What chooses the model; empty means instruction.
abbrev pub RouteMode : Type 0
RouteMode = String

abbrev pub route_mode_instruction : RouteMode
route_mode_instruction = "instruction"

abbrev pub route_mode_latency : RouteMode
route_mode_latency = "latency"

abbrev pub route_mode_least_busy : RouteMode
route_mode_least_busy = "least-busy"

abbrev pub route_mode_size : RouteMode
route_mode_size = "size"

abbrev pub route_mode_header : RouteMode
route_mode_header = "header"

abbrev pub route_modes : List RouteMode
route_modes =
    route_mode_instruction ∷ "fallback" ∷ route_mode_latency ∷ route_mode_least_busy
    ∷ route_mode_size ∷ route_mode_header ∷ []

-- `RouteMode.Valid`
unfoldable pub route_mode_valid : RouteMode → Bool
route_mode_valid m = m == "" || contains route_modes m

-- `RouteMode.Decides`
unfoldable pub mode_decides : RouteMode → Bool
mode_decides m = m == "" || m == route_mode_instruction

-- `RouteMode.Chooses`
unfoldable pub mode_chooses : RouteMode → Bool
unfolding mode_decides
mode_chooses m = mode_decides m || m == route_mode_header

-- `RouteMode.Measures`
unfoldable pub mode_measures : RouteMode → Bool
mode_measures m = m == route_mode_latency || m == route_mode_least_busy

-- `RouteMode.Sizes`
unfoldable pub mode_sizes : RouteMode → Bool
mode_sizes m = m == route_mode_size

-- A map is the list of its entries in the order of their keys.
pub record Route : Type 0 where
  pub org_id : String
  pub router : String
  pub step : String
  pub mode : RouteMode
  pub model : String
  pub prompt : String
  pub destinations : List String
  pub ceilings : Dict ℤ
  pub header : String
  pub values : Dict String
  pub fallback : String

-- `Route.Decides`
unfoldable pub decides : Route → Bool
unfolding mode_decides
decides r = mode_decides r.mode && ltb 1 (length r.destinations)

-- `Route.Chooses`
unfoldable pub chooses : Route → Bool
unfolding decides
chooses r = decides r || r.mode == route_mode_header

-- `Route.Refuses`
unfoldable pub refuses : Route → Bool
refuses r = r.fallback == ""

-- `Route.ReadsWith`
unfoldable pub route_reads_with : Route → String
unfolding mode_decides
route_reads_with r = if not (mode_decides r.mode) then "" else r.model

-- `Route.Ceiling`, on the ceilings of a step
unfoldable pub ceiling : Dict ℤ → String → ℤ × Bool
ceiling ceilings alias = elim (get ceilings alias) [
  | none ↦ (pos 0, false)
  | some n ↦ (n, ltb_ℤ (pos 0) n)
]

-- `Route.Unbounded`, on the destinations and ceilings of a step
unfoldable pub unbounded : List String → Dict ℤ → List String
unfolding ceiling
unbounded [] ceilings = []
unbounded (alias ∷ destinations) ceilings =
    let rest = unbounded destinations ceilings in
    if (ceiling ceilings alias).1 then rest else alias ∷ rest
