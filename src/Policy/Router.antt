-- ===== src/Policy/Router.antt =====
-- Routers: `Router`, `Step`, the walk over the steps, and what a router uses, reaches and reads
-- with, internal/policy/router.go. A nil pointer to a step is `absent`. A map is the list of its
-- entries in the order of their keys, each key once, which is the order that the walk takes.
pub mod Problems
pub mod Reach
use Prim.Native.String.{◌++◌ as join}
use keera_gateway.Base.{
  ℕ, String, Bool, true, false, Option, none, some, List, [], ◌∷◌, ◌++◌, ◌&&◌, ◌||◌, ◌==◌,
  string_eq, not, any, if◌then◌else◌, contains,
}
use keera_gateway.Base.Dict.{Dict, get}
use keera_gateway.Base.Int.{ℤ}
use keera_gateway.Policy.Calendar.{Period, period_month}
use keera_gateway.Policy.Scope.{Scope, scope_router}
use keera_gateway.Policy.Model.{Model}
use keera_gateway.Policy.Limits.{RateLimit, Budget, budget_per, count, scope_at}
use keera_gateway.Policy.Filter.{Filter}
use keera_gateway.Policy.Route.{Route, RouteMode, route_reads_with}
use keera_gateway.Policy.AllowList.{allows}
use keera_gateway.Policy.Resolve.{Resolved, is_subscription}

abbrev pub StepKind : Type 0
StepKind = String

abbrev pub step_filter : StepKind
step_filter = "filter"

abbrev pub step_route : StepKind
step_route = "route"

abbrev pub step_rate_limit : StepKind
step_rate_limit = "rate_limit"

abbrev pub step_budget : StepKind
step_budget = "budget"

abbrev pub step_model : StepKind
step_model = "model"

abbrev pub step_system_prompt : StepKind
step_system_prompt = "system_prompt"

abbrev pub step_kinds : List StepKind
step_kinds =
    step_filter ∷ step_route ∷ step_rate_limit ∷ step_budget ∷ step_model ∷ step_system_prompt ∷ []

-- `StepKind.Limits`
unfoldable pub kind_limits : StepKind → Bool
kind_limits k = k == step_rate_limit || k == step_budget

-- `StepKind.Names`
unfoldable pub kind_names : StepKind → Bool
kind_names k = k == step_filter || k == step_model

-- The fields of a `Step` but those that lead to other steps.
pub record StepFields : Type 0 where
  pub id : String
  pub kind : StepKind
  pub ref : String
  pub requests : ℤ
  pub tokens : ℤ
  pub budget_micros : ℤ
  pub prompt : String
  pub mode : RouteMode
  pub model : String
  pub destinations : List String
  pub ceilings : Dict ℤ
  pub fallback : String
  pub header : String
  pub values : Dict String
  pub period : Period

mutual
  -- A `*Step`.
  pub data Link : Type 0 where
    absent : Link
    to : Step → Link

  -- A step, with what comes next, where a limit that is exceeded leads, and the branches.
  pub data Step : Type 0 where
    step : StepFields → Link → Link → Branches → Step

  pub data Branches : Type 0 where
    no_more : Branches
    branch : String → Link → Branches → Branches

abbrev pub fields : Step → StepFields
fields (step f next exceeded branches) = f

abbrev pub next_of : Step → Link
next_of (step f next exceeded branches) = next

abbrev pub exceeded_of : Step → Link
exceeded_of (step f next exceeded branches) = exceeded

abbrev pub branches_of : Step → Branches
branches_of (step f next exceeded branches) = branches

-- `Branches[d]`: nil where there is none
abbrev pub branch_at : Branches → String → Link
branch_at no_more d = absent
branch_at (branch dest link rest) d = if dest == d then link else branch_at rest d

abbrev pub is_absent : Link → Bool
is_absent absent = true
is_absent (to s) = false

-- `walkSteps`: every step, each before what follows it
unfoldable mutual
  pub steps : Link → List Step
  steps absent = []
  steps (to s) = steps_from s

  pub steps_from : Step → List Step
  steps_from (step f next exceeded branches) =
      step f next exceeded branches ∷ (steps next ++ (steps exceeded ++ steps_in branches))

  pub steps_in : Branches → List Step
  steps_in no_more = []
  steps_in (branch dest link rest) = steps link ++ steps_in rest

pub record Router : Type 0 where
  pub org_id : String
  pub alias : String
  pub start : Link

-- What `Router.Uses` asks of one step.
abbrev pub step_uses : StepKind → String → Step → Bool
step_uses kind alias s =
    (fields s).kind == kind && (fields s).ref == alias
    || kind == step_model
      && (fields s).kind == step_route
      && ((fields s).model == alias || contains (fields s).destinations alias)

-- `Router.Uses`
unfoldable pub uses : Router → StepKind → String → Bool
uses p kind alias = any (step_uses kind alias) (steps p.start)

-- `Router.Route`
unfoldable pub route_of : Router → StepFields → Route
route_of p s = record {
  org_id = p.org_id;
  router = p.alias;
  step = s.id;
  mode = s.mode;
  model = s.model;
  prompt = s.prompt;
  destinations = s.destinations;
  ceilings = s.ceilings;
  header = s.header;
  values = s.values;
  fallback = s.fallback;
}

-- The loop of `Router.Routes`.
unfoldable pub routes_of : Router → List Step → List Route
unfolding route_of
routes_of p [] = []
routes_of p (s ∷ rest) =
    let more = routes_of p rest in
    if (fields s).kind == step_route then route_of p (fields s) ∷ more else more

-- `Router.Routes`
unfoldable pub routes : Router → List Route
unfolding routes_of
routes p = routes_of p (steps p.start)

-- `Step.RateLimit`
abbrev pub rate_limit : StepFields → RateLimit
rate_limit s = record { requests = s.requests; tokens = s.tokens; period = s.period }

-- `Step.Budget`
abbrev pub budget : StepFields → Budget
budget s = record { budget_micros = s.budget_micros; period = s.period }

counted_or : Scope × List Scope → List Scope
counted_or (month, []) = month ∷ []
counted_or (month, q ∷ qs) = q ∷ qs

-- `Router.Scopes`
unfoldable pub router_scopes : Router → StepFields → List Scope
unfolding counted_or
router_scopes p s =
    let id = join p.org_id (join "/" (join p.alias (join "/" s.id))) in
    if s.kind == step_budget
    then record (scope_at scope_router id (budget_per (budget s))) {
      budget_micros = s.budget_micros;
    }
      ∷ []
    else counted_or (count (rate_limit s) (scope_at scope_router id period_month))

-- `add` of `Reaches`
abbrev pub add_new : List String → String → List String
add_new out alias = if contains out alias then out else out ++ alias ∷ []

-- The destinations without a branch.
unfoldable pub add_destinations : Branches → List String → List String → List String
add_destinations branches [] out = out
add_destinations branches (d ∷ ds) out =
    add_destinations branches ds (if is_absent (branch_at branches d) then add_new out d else out)

-- The loop of `Reaches`.
unfoldable pub reaches_from : List Step → List String → List String
unfolding add_destinations
reaches_from [] out = out
reaches_from (s ∷ rest) out = reaches_from rest (
    if (fields s).kind == step_model
    then add_new out (fields s).ref
    else if (fields s).kind == step_route
    then add_destinations (branches_of s) (fields s).destinations out
    else out)

-- `Router.Reaches`
unfoldable pub reaches : Router → List String
unfolding reaches_from
reaches p = reaches_from (steps p.start) []

-- The loop of `Router.ReadsWith`.
unfoldable pub add_readers : List Route → List String → List String
add_readers [] out = out
add_readers (rt ∷ rts) out =
    let m = route_reads_with rt in
    add_readers rts (if not (m == "") && not (contains out m) then out ++ m ∷ [] else out)

-- `Router.ReadsWith`
unfoldable pub reads_with : Router → List String
unfolding add_readers
reads_with p = add_readers (routes p) (reaches p)

-- `!ok || !r.AllowsLocation(m.Location)`, negated
located : Option (List String) → Option Model → Bool
located locations none = false
located locations (some m) = allows locations m.location

-- The loop of `MayCallRouter`.
unfoldable pub all_located : Option (List String) → (String → Option Model) → List String → Bool
unfolding located
all_located locations find [] = true
all_located locations find (alias ∷ rest) =
    let later = all_located locations find rest in
    if not (located locations (find alias)) then false else later

restricted : Option (List String) → Bool
restricted none = false
restricted (some l) = true

-- `Resolved.MayCallRouter`
unfoldable pub may_call_router : Resolved → Router → (String → Option Model) → Bool
unfolding all_located restricted
may_call_router r p find =
    if not (allows r.allowed_models p.alias) || is_subscription r.key
    then false
    else if not (restricted r.allowed_locations)
    then true
    else all_located r.allowed_locations find (reads_with p)

-- `RouterRefs`: what a router's steps may name, by alias
pub record RouterRefs : Type 0 where
  pub models : Dict Model
  pub filters : Dict Filter
