-- ===== src/Tests/Routers.antt =====
-- Names, filter rules and routers.
use keera_gateway.Base.{
  String, true, false, Option, none, some, [], ◌∷◌, ◌≡◌, refl, ◌↔◌, ◌≤◌, length, All, contains,
  bytes,
}
use keera_gateway.Base.Int.{pos}
use keera_gateway.Base.Dict.{get}
use keera_gateway.Policy.Names.{valid_name, valid_alias}
use keera_gateway.Policy.Model.{Model}
use keera_gateway.Policy.Filter.{FilterRule, Compile}
use keera_gateway.Policy.Resolve.{Resolved, unrestricted, is_subscription}
use keera_gateway.Policy.AllowList.{allows}
use keera_gateway.Policy.Resolve.Filters.{NoRepeats}
use keera_gateway.Policy.Router.{
  Step, step, StepFields, Link, absent, to, Branches, no_more, Router, RouterRefs, steps, routes,
  reaches, step_model, step_rate_limit, is_absent, may_call_router,
}
use keera_gateway.Policy.Router.Reach.{may_call_router-located}
use keera_gateway.Policy.Router.Problems.{problem}
use keera_gateway.Policy.Router.Problems.Checked.{IsSound, ids, problem-eq-none_iff}
use keera_gateway.Policy.Router.Problems.Answers.{CanAnswer, reaches-CanAnswer}
use keera_gateway.Policy.Router.Problems.Ends.{reaches_some}
use keera_gateway.Tests.Data.{fast, some_key}

abbrev key_rule : FilterRule
key_rule = record { pattern = "sk-[a-z]+"; replace = "KEY"; refuse = false; reason = "" }

-- An engine whose expressions match no text.
abbrev no_match : Compile
no_match pattern = some (λ (text : String). false)

abbrev pub plain_step : StepFields
plain_step = record {
  id = "s";
  kind = step_model;
  ref = "fast";
  requests = pos 0;
  tokens = pos 0;
  budget_micros = pos 0;
  prompt = "";
  mode = "";
  model = "";
  destinations = [];
  ceilings = [];
  fallback = "";
  header = "";
  values = [];
  period = "";
}

-- Ten requests a minute, then the model.
abbrev rate_step : StepFields
rate_step = record plain_step { id = "limit"; kind = step_rate_limit; ref = ""; requests = pos 10 }

abbrev ends : Link
ends = to (step plain_step absent absent no_more)

abbrev pub limited_router : Router
limited_router = record {
  org_id = "acme";
  alias = "main";
  start = to (step rate_step ends absent no_more);
}

abbrev pub refs : RouterRefs
refs = record { models = ("fast", fast) ∷ []; filters = [] }

problem-eq-none_iff_example : (problem limited_router refs ≡ none) ↔ (
    (valid_alias "main" ≡ true)
    × (false ≡ false)
    × (length (steps limited_router.start) ≤ 64)
    × NoRepeats (ids (steps limited_router.start))
    × All (IsSound refs) (steps limited_router.start))
problem-eq-none_iff_example = problem-eq-none_iff limited_router refs

reaches-CanAnswer_example : CanAnswer refs "fast"
unfolding problem reaches contains valid_alias keera_gateway.Policy.Names.valid_bytes bytes steps
    keera_gateway.Policy.Router.Problems.step_problem keera_gateway.Policy.Router.kind_names
    keera_gateway.Policy.Router.kind_limits keera_gateway.Policy.Limits.rate_problem get
reaches-CanAnswer_example = reaches-CanAnswer limited_router refs "fast" refl refl

reaches_some_example : (a : String) × (contains (reaches limited_router) a ≡ true)
unfolding problem valid_alias keera_gateway.Policy.Names.valid_bytes bytes steps contains
    keera_gateway.Policy.Router.Problems.step_problem keera_gateway.Policy.Router.kind_names
    keera_gateway.Policy.Router.kind_limits keera_gateway.Policy.Limits.rate_problem get
reaches_some_example = reaches_some limited_router refs refl

abbrev pub in_ch : Resolved
in_ch = record (unrestricted some_key) { allowed_locations = some ("ch" ∷ []) }

abbrev pub find_fast : String → Option Model
find_fast alias = get refs.models alias

may_call_router-located_example :
    (allows none "main" ≡ true)
    × (is_subscription some_key ≡ false)
    × ((m : Model) × (find_fast "fast" ≡ some m) × (contains ("ch" ∷ []) m.location ≡ true))
unfolding may_call_router allows is_subscription keera_gateway.Policy.Router.reads_with routes steps
    reaches contains get
may_call_router-located_example =
    may_call_router-located in_ch limited_router find_fast ("ch" ∷ []) "fast" refl refl refl
