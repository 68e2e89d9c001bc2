-- ===== src/Tests/Walks.antt =====
-- Requests on their way through route steps and routers.
use keera_gateway.Base.{
  if◌then◌else◌, String, true, false, Option, none, some, [], ◌∷◌, ◌≡◌, ◌==◌, string_eq, refl, All,
  Bool-cases, inl, inr, text_eq_iff, contains, arith, bytes,
}
use keera_gateway.Base.Dict.{get}
use keera_gateway.Base.Int.{pos}
use keera_gateway.Policy.Model.{Model, kind_chat}
use keera_gateway.Policy.Route.{Route, ceiling}
use keera_gateway.Policy.Router.{Router, reaches, steps, routes, route_of, may_call_router}
use keera_gateway.Policy.Router.Problems.{problem}
use keera_gateway.Policy.Names.{valid_alias}
use keera_gateway.Policy.AllowList.{allows}
use keera_gateway.Policy.Resolve.{is_subscription}
use keera_gateway.Registry.Budgets.{new_budgets}
use keera_gateway.Gateway.Serve.{serveable}
use keera_gateway.Gateway.Load.{order}
use keera_gateway.Gateway.Load.Orders.{contains-order}
use keera_gateway.Gateway.Size.{estimate_tokens, max_context_of, size_bands, sized}
use keera_gateway.Gateway.Size.Bands.{head, sized-size_bands}
use keera_gateway.Gateway.Choice.{broken}
use keera_gateway.Gateway.Route.{Inputs}
use keera_gateway.Gateway.Walk.{Call, World, Walked, placed, refused, use_router}
use keera_gateway.Gateway.Walk.Parts.{IsWorld}
use keera_gateway.Gateway.Walk.Lands.{use_router-reaches, use_router-located}
use keera_gateway.Tests.Data.{fast}
use keera_gateway.Tests.Routers.{limited_router, refs, find_fast, in_ch, plain_step}

abbrev pub no_texts : Route → Inputs
no_texts rt = record {
  texts = some [];
  values = λ header. [];
  lower_value = λ value. value;
  order = λ rt' aliases. order rt'.mode (λ alias. alias) [] aliases 7;
  ask = λ texts by_letter. record { answer = broken; micros = pos 0; bills = [] };
  reads_logprobs = false;
  hung_up = false;
}

abbrev pub quiet : World
quiet = record {
  find = find_fast;
  kind = kind_chat;
  now = 7;
  filters = λ c aliases. record { micros = pos 0; bills = []; ran = []; passed = true };
  inputs = λ c rt. no_texts rt;
  translates = λ c. true;
}

abbrev pub new_call : Call
new_call = record {
  alias = "";
  model = none;
  chain = [];
  prompts = [];
  scopes = [];
  filter_micros = pos 0;
  decision_micros = pos 0;
  earlier_micros = pos 0;
  filter_bills = [];
  decision_bills = [];
  earlier_bills = [];
  ran = [];
  budgets = new_budgets false;
  limiter = [];
}

found_fast : (a : String) (m : Model) → find_fast a ≡ some m → m.alias ≡ a
unfolding get
found_fast a m e = elim (Bool-cases ("fast" == a)) [
  | inl here ↦
      let same : fast ≡ m = cc (rw here at e) in rw (← same) ((text_eq_iff "fast" a).0 here)
  | inr away ↦ cc (rw away at e)
]

quiet-IsWorld : IsWorld quiet
quiet-IsWorld = record {
  reorders = λ c rt rt' l a. contains-order rt'.mode (λ alias. alias) [] l 7 a;
  named = found_fast;
}

abbrev call_of : Walked → Call
call_of (placed c) = c
call_of (refused e c) = c

-- One request, after its limit step and its model step.
abbrev answered : Call
answered = call_of (use_router quiet limited_router new_call)

use_router-reaches_example :
    (contains (reaches limited_router) answered.alias ≡ true)
    × All (λ (a : String). contains (reaches limited_router) a ≡ true) answered.chain
unfolding use_router problem valid_alias keera_gateway.Policy.Names.valid_bytes bytes steps
    keera_gateway.Policy.Router.Problems.step_problem keera_gateway.Policy.Router.kind_names
    keera_gateway.Policy.Router.kind_limits keera_gateway.Policy.Limits.rate_problem get contains
    keera_gateway.Gateway.Limits.check_rates keera_gateway.Ratelimit.Limiter.admit
    keera_gateway.Policy.Router.router_scopes keera_gateway.Policy.Limits.count
    keera_gateway.Ratelimit.Limiter.got keera_gateway.Gateway.Serve.chat_problem
use_router-reaches_example =
    use_router-reaches quiet limited_router refs new_call answered quiet-IsWorld refl refl

use_router-located_example :
    All
      (λ (a : String).
        (m : Model) × (find_fast a ≡ some m) × (contains ("ch" ∷ []) m.location ≡ true))
      (answered.alias ∷ answered.chain)
unfolding use_router problem valid_alias keera_gateway.Policy.Names.valid_bytes bytes steps
    keera_gateway.Policy.Router.Problems.step_problem keera_gateway.Policy.Router.kind_names
    keera_gateway.Policy.Router.kind_limits keera_gateway.Policy.Limits.rate_problem get contains
    keera_gateway.Gateway.Limits.check_rates keera_gateway.Ratelimit.Limiter.admit
    keera_gateway.Policy.Router.router_scopes keera_gateway.Policy.Limits.count
    keera_gateway.Ratelimit.Limiter.got keera_gateway.Gateway.Serve.chat_problem may_call_router
    allows is_subscription keera_gateway.Policy.Router.reads_with routes reaches
use_router-located_example =
    use_router-located quiet limited_router refs in_ch ("ch" ∷ []) new_call answered quiet-IsWorld
      refl refl refl refl

-- Two destinations of any length, the smaller for short requests.
abbrev sized_route : Route
sized_route = record (route_of limited_router plain_step) {
  mode = "size";
  destinations = "fast" ∷ "wide" ∷ [];
  ceilings = ("fast", pos 100) ∷ [];
}

-- The smaller destination holds long requests, the other holds none.
abbrev find_any : String → Option Model
find_any alias =
    some (record fast { alias = alias; max_context = if alias == "fast" then pos 50 else pos 1 })

sized-size_bands_example : head (sized find_any sized_route ("hello world" ∷ [])) ≡ some "fast"
unfolding size_bands estimate_tokens serveable route_of ceiling get max_context_of bytes
    keera_gateway.Gateway.Sorting.sort_stable
sized-size_bands_example =
    sized-size_bands find_any sized_route ("hello world" ∷ []) "fast"
      (omega arith, (omega arith, tt)) refl
