-- ===== src/Gateway/Load.antt =====
-- What this process has seen of each destination, and the order that measured route steps try them
-- in: internal/gateway/load.go. Times are nanoseconds, 0 is Go's zero time, and `blend` is the
-- weighted mean of the old and the new latency at an age, which the source computes in floating
-- point.
pub mod Orders
use keera_gateway.Base.{
  ℕ, ◌+◌, ◌-◌, ◌*◌, String, Bool, true, false, not, ◌&&◌, ◌||◌, Option, none, some, List, [], ◌∷◌,
  ◌==◌, string_eq, nat_eq, ltb, leb, same_bool, length, if◌then◌else◌,
}
use keera_gateway.Base.Dict.{Dict, get, put}
use keera_gateway.Base.Int.{ℤ, pos, negsuc, ltb_ℤ}
use keera_gateway.Base.Int64.{add64}
use keera_gateway.Policy.Route.{RouteMode, mode_measures, route_mode_least_busy}
use keera_gateway.Gateway.Sorting.{sort_stable}

abbrev pub load_stale : ℕ
load_stale = 300_000_000_000

abbrev pub load_penalty : ℕ
load_penalty = 30_000_000_000

pub record DestLoad : Type 0 where
  pub inflight : ℤ
  pub ewma : ℕ
  pub at : ℕ
  pub failed_at : ℕ

abbrev pub Loads : Type 0
Loads = Dict DestLoad

unfoldable pub load_or_new : Option DestLoad → DestLoad
load_or_new none = record { inflight = pos 0; ewma = 0; at = 0; failed_at = 0 }
load_or_new (some d) = d

-- `loads.get`
unfoldable pub load_of : Loads → String → DestLoad
unfolding load_or_new
load_of l key = load_or_new (get l key)

-- `begin`, and the function that it returns, called once
unfoldable pub begin : Loads → String → Loads
unfolding load_of
begin l key = let d = load_of l key in put l key (record d { inflight = add64 d.inflight (pos 1) })

unfoldable pub end_one : Loads → String → Loads
unfolding load_of
end_one l key =
    let d = load_of l key in put l key (record d { inflight = add64 d.inflight (negsuc 0) })

-- `observe`
unfoldable pub observe : (ℕ → ℕ → ℕ → ℕ) → Loads → String → ℕ → ℕ → Loads
unfolding load_of
observe blend l key ttft now =
    let d = load_of l key in
    if ttft == 0
    then l
    else if d.at == 0 || leb (d.at + load_stale) now || ltb now d.at
    then put l key (record d { ewma = ttft; at = now })
    else put l key (record d { ewma = blend (now - d.at) d.ewma ttft; at = now })

-- `fail`
unfoldable pub fail : Loads → String → ℕ → Loads
unfolding load_of
fail l key now = put l key (record (load_of l key) { failed_at = now })

pub record Reading : Type 0 where
  pub inflight : ℤ
  pub latency : ℕ
  pub known : Bool
  pub failing : Bool

-- `read`
unfoldable pub read : Loads → String → ℕ → Reading
unfolding load_of
read l key now =
    let d = load_of l key in
    let recent = not (d.at == 0) && leb d.at now && ltb now (d.at + load_stale) in
    record {
      inflight = d.inflight;
      latency = if recent then d.ewma else 0;
      known = recent;
      failing = not (d.failed_at == 0) && ltb now (d.failed_at + load_penalty);
    }

-- Whether one reading goes before another
unfoldable pub goes_before : RouteMode → Reading → Reading → Bool
goes_before mode a b =
    if not (same_bool a.failing b.failing)
    then not a.failing
    else if mode == route_mode_least_busy
    then ltb_ℤ a.inflight b.inflight
    else if not (same_bool a.known b.known)
    then not a.known
    else ltb a.latency b.latency

-- `order`; `key` gives the model key of an alias
unfoldable pub order : RouteMode → (String → String) → Loads → List String → ℕ → List String
unfolding goes_before read
order mode key l aliases now =
    if ltb (length aliases) 2 || not (mode_measures mode)
    then aliases
    else sort_stable (λ a b. goes_before mode (read l (key a) now) (read l (key b) now)) aliases
