-- ===== src/Gateway/Route.antt =====
-- One decision of a route step: `route`, `chain`, `nowhere`, `routeFallback`, `settle` and `routeWindow` of
-- internal/gateway/route.go, `byHeader` of header.go and the refusals of size.go. Problems and
-- reasons are named, not worded. What the decision reads besides the registry (`find`) is a record:
-- the texts of the request, its headers, what was measured and what the step's model answers.
pub mod Places
use keera_gateway.Base.{
  ℕ, zero, suc, ◌+◌, ◌*◌, ◌^◌, String, Bool, true, false, not, ◌&&◌, ◌||◌, Option, none, some, List,
  [], ◌∷◌, ◌++◌, ◌==◌, string_eq, nat_eq, ltb, leb, length, bytes, trim_space, if◌then◌else◌,
}
use keera_gateway.Base.Dict.{Dict, get}
use keera_gateway.Base.Int.{ℤ, pos}
use keera_gateway.Policy.Model.{Model, kind_decision}
use keera_gateway.Policy.Bill.{BillLine}
use keera_gateway.Policy.Route.{
  Route, route_mode_header, mode_decides, mode_sizes, decides, refuses,
}
use keera_gateway.Gateway.Serve.{ServeProblem, chat_problem, reader_problem, kept_of, all_locked}
use keera_gateway.Gateway.Size.{sized}
use keera_gateway.Gateway.Choice.{Asked, Decision, Reading, chose, unreadable, failed, decide}

pub data Outcome : Type 0 where
  router_chose router_fell_back router_error : Outcome

-- What went wrong on a decision that fell back or was refused.
pub data Why : Type 0 where
  no_header many_headers unknown_value no_text not_decided dropped : Why
  cannot_serve cannot_read : ServeProblem → Why

pub data Refusal : Type 0 where
  org_limited no_destination undecided header_undecided unreadable_body : Refusal

pub record RouteDecision : Type 0 where
  pub alias : String
  pub outcome : Outcome
  pub chain : List String
  pub micros : ℤ
  pub bills : List BillLine
  pub why : Option Why

-- How the attempts ended: the last model tried, its place in the chain, and the status it answered
-- with, if it answered.
pub record Forwarded : Type 0 where
  pub alias : String
  pub at : ℕ
  pub err : Bool
  pub status : Option ℕ

server_error : Option ℕ → Bool
server_error none = false
server_error (some status) = leb 500 status

fell_back : Outcome → Bool
fell_back router_chose = false
fell_back router_fell_back = true
fell_back router_error = false

-- `settle`
unfoldable pub settle : RouteDecision → Forwarded → RouteDecision
unfolding server_error fell_back
settle d f = record d {
  alias = f.alias;
  outcome =
      if f.err || server_error f.status
      then router_error
      else if ltb 0 f.at || fell_back d.outcome
      then router_fell_back
      else router_chose;
}

-- `texts` is none where the body cannot be read; `values` are those of a header, in order;
-- `lower_value` is `strings.ToLower`; `order` is `loads.order`; `ask` asks the step's model about the texts.
pub record Inputs : Type 0 where
  pub texts : Option (List String)
  pub values : String → List String
  pub lower_value : String → String
  pub order : Route → List String → List String
  pub ask : List String → Bool → Asked
  pub reads_logprobs : Bool
  pub hung_up : Bool

abbrev pub undecided_yet : RouteDecision
undecided_yet = record {
  alias = "";
  outcome = router_chose;
  chain = [];
  micros = pos 0;
  bills = [];
  why = none;
}

abbrev pub Decided : Type 0
Decided = RouteDecision × Option Refusal

abbrev pub route_window_bytes : ℕ
route_window_bytes = 24 * 2 ^ 10

suffix_size : List String → ℕ
suffix_size [] = 0
suffix_size (t ∷ texts) = length (bytes t) + suffix_size texts

-- `routeWindow`: the longest end of the texts that fits, and the last text whatever its length
unfoldable pub route_window : List String → List String
unfolding suffix_size
route_window [] = []
route_window (t ∷ []) = t ∷ []
route_window (t ∷ u ∷ texts) =
    let rest = route_window (u ∷ texts) in
    if leb (suffix_size (t ∷ u ∷ texts)) route_window_bytes then t ∷ u ∷ texts else rest

only_weighs : Option Model → Bool
only_weighs none = false
only_weighs (some m) = m.kind == kind_decision

module _ (find : String → Option Model) where
  -- `nowhere`
  unfoldable pub nowhere : Route → Refusal
  nowhere rt = if all_locked find rt.destinations then org_limited else no_destination

  -- `routeFallback`
  unfoldable pub route_fallback : Route → RouteDecision → Decided
  route_fallback rt d =
      if refuses rt then (record d { outcome = router_error }, some undecided) else (
        record d { outcome = router_fell_back; alias = rt.fallback; chain = rt.fallback ∷ [] },
        none,
      )

  first_of : Route → List String → Decided
  first_of rt [] = (record undecided_yet { outcome = router_error }, some (nowhere rt))
  first_of rt (a ∷ rest) = (record undecided_yet { alias = a; chain = a ∷ rest }, none)

  chain_from : Route → List String → Decided
  chain_from rt [] =
      if mode_decides rt.mode && not (refuses rt)
      then route_fallback rt (record undecided_yet { why = some dropped })
      else first_of rt []
  chain_from rt (a ∷ rest) = first_of rt (a ∷ rest)

  -- `chain`
  unfoldable pub chain : Route → Inputs → Decided
  unfolding chain_from first_of nowhere route_fallback
  chain rt i = chain_from rt (i.order rt (kept_of find rt.destinations))

  sized_from : Route → Option (List String) → Decided
  sized_from rt none = (undecided_yet, some unreadable_body)
  sized_from rt (some texts) = first_of rt (sized find rt texts)

  -- `byHeader` without a destination to send to
  no_value : Route → Why → Decided
  no_value rt why =
      let d : RouteDecision = record undecided_yet { why = some why } in
      if refuses rt
      then (record d { outcome = router_error }, some header_undecided)
      else route_fallback rt d

  served_value : Route → String → Option ServeProblem → Decided
  served_value rt alias none = (record undecided_yet { alias = alias; chain = alias ∷ [] }, none)
  served_value rt alias (some p) =
      route_fallback rt (record undecided_yet { why = some (cannot_serve p) })

  known_value : Route → Option String → Decided
  known_value rt none = no_value rt unknown_value
  known_value rt (some alias) = served_value rt alias (chat_problem (find alias))

  header_values : Route → Inputs → List String → Decided
  header_values rt i [] = no_value rt no_header
  header_values rt i (v ∷ []) = known_value rt (get rt.values (i.lower_value (trim_space v)))
  header_values rt i (v ∷ w ∷ rest) = no_value rt many_headers

  -- `byHeader`
  unfoldable pub by_header : Route → Inputs → Decided
  unfolding header_values known_value served_value no_value route_fallback
  by_header rt i = header_values rt i (i.values rt.header)

  read_or : Route → Inputs → RouteDecision → Reading → Decided
  read_or rt i d (chose alias sure) = (record d { alias = alias; chain = alias ∷ [] }, none)
  read_or rt i d unreadable =
      if i.hung_up
      then (record d { outcome = router_error }, none)
      else route_fallback rt (record d { why = some not_decided })
  read_or rt i d failed =
      if i.hung_up
      then (record d { outcome = router_error }, none)
      else route_fallback rt (record d { why = some not_decided })

  asked : Route → Inputs → List String → List String → Option ServeProblem → Decided
  asked rt i offered texts (some p) =
      route_fallback rt (record undecided_yet { why = some (cannot_read p) })
  asked rt i offered texts none =
      let c = decide (only_weighs (find rt.model)) i.reads_logprobs (i.ask texts) offered in
      read_or rt i (record undecided_yet { micros = c.micros; bills = c.bills }) c.reading

  windowed : Route → Inputs → List String → List String → Decided
  windowed rt i offered [] = route_fallback rt (record undecided_yet { why = some no_text })
  windowed rt i offered (t ∷ texts) =
      asked rt i offered (t ∷ texts) (reader_problem (find rt.model) true)

  with_texts : Route → Inputs → List String → Option (List String) → Decided
  with_texts rt i offered none =
      (record undecided_yet { outcome = router_error }, some unreadable_body)
  with_texts rt i offered (some texts) = windowed rt i offered (route_window texts)

  instructed : Route → Inputs → List String → Decided
  instructed rt i [] = with_texts rt i [] i.texts
  instructed rt i (a ∷ []) = (record undecided_yet { alias = a; chain = a ∷ [] }, none)
  instructed rt i (a ∷ b ∷ rest) = with_texts rt i (a ∷ b ∷ rest) i.texts

  -- `route`
  unfoldable pub route : Route → Inputs → Decided
  unfolding sized_from first_of by_header chain instructed with_texts windowed asked read_or
      only_weighs
  route rt i =
      if mode_sizes rt.mode
      then sized_from rt i.texts
      else if rt.mode == route_mode_header
      then by_header rt i
      else if not (decides rt)
      then chain rt i
      else instructed rt i (kept_of find rt.destinations)
