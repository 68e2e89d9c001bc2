-- ===== src/Gateway/Credit.antt =====
-- The credit that a request may take: internal/gateway/credit.go, `answerCost` of filter.go and
-- `filterOutside` of location.go. `find` and `find_filter` are the registry's lookups in the
-- organisation.
pub mod Location
use keera_gateway.Base.{
  ℕ, ◌*◌, String, Bool, true, false, not, ◌&&◌, ◌||◌, Option, none, some, List, [], ◌∷◌, ◌++◌, ◌==◌,
  string_eq, nat_eq, ltb, length, any, if◌then◌else◌,
}
use keera_gateway.Base.Int.{ℤ, pos, quot_ℕ, ltb_ℤ, max_ℤ, min_ℤ}
use keera_gateway.Base.Int64.{add64, mul64}
use keera_gateway.Policy.Model.{Model, Tokens, Kind}
use keera_gateway.Policy.Cost.{cost}
use keera_gateway.Policy.Bill.{BillLine, bill, counts_tokens}
use keera_gateway.Policy.AllowList.{allows}
use keera_gateway.Policy.Filter.{Filter, uses_model}
use keera_gateway.Policy.Resolve.{Resolved}
use keera_gateway.Policy.Route.{Route, decides}
use keera_gateway.Policy.Router.{
  Router, Step, StepFields, fields, steps, routes, reaches, step_filter,
}
use keera_gateway.Gateway.Target.{Named, to_model, to_router}

-- `len(out) > 0`
abbrev some_model : List Model → Bool
some_model [] = false
some_model (m ∷ ms) = true

billed_of : Option Model → List Model
billed_of none = []
billed_of (some m) = elim m.billing [ none ↦ [] | some b ↦ m ∷ [] ]

filter_steps : List Step → List String
filter_steps [] = []
filter_steps (s ∷ rest) =
    let more = filter_steps rest in
    if (fields s).kind == step_filter then (fields s).ref ∷ more else more

steps_of : Named → List Step
steps_of (to_model m) = []
steps_of (to_router p) = steps p.start

-- `callFilters`
unfoldable pub call_filters : Resolved → Named → List String
unfolding filter_steps steps_of
call_filters res n = filter_steps (steps_of n) ++ res.filters

module _ (find : String → Option Model) where
  -- `billedModel`
  unfoldable pub billed_model : String → List Model
  unfolding billed_of
  billed_model alias = if alias == "" then [] else billed_of (find alias)

  billed_aliases : List String → List Model
  billed_aliases [] = []
  billed_aliases (a ∷ aliases) = billed_model a ++ billed_aliases aliases

  -- `billedAnswerers`
  unfoldable pub billed_answerers : Named → List Model
  unfolding billed_aliases billed_of billed_model
  billed_answerers (to_model m) = billed_of (some m)
  billed_answerers (to_router p) = billed_aliases (reaches p)

  deciding : List Route → List Model
  deciding [] = []
  deciding (rt ∷ rts) =
      let more = deciding rts in if not (decides rt) then more else billed_model rt.model ++ more

  -- `billedDeciders`
  unfoldable pub billed_deciders : Named → List Model
  unfolding deciding billed_model
  billed_deciders (to_model m) = []
  billed_deciders (to_router p) = deciding (routes p)

  module _ (find_filter : String → Option Filter) where
    reads_billed : Option Filter → List Model
    reads_billed none = []
    reads_billed (some f) = if not (uses_model f.mode) then [] else billed_model f.model

    -- `billedFilterModels`
    unfoldable pub billed_filter_models : List String → List Model
    unfolding reads_billed billed_model
    billed_filter_models [] = []
    billed_filter_models (a ∷ aliases) =
        reads_billed (find_filter a) ++ billed_filter_models aliases

    -- `billed`
    unfoldable pub is_billed : Resolved → Named → Bool
    unfolding billed_filter_models billed_answerers billed_deciders call_filters
    is_billed res n =
        some_model (billed_deciders n)
        || some_model (billed_answerers n)
        || some_model (billed_filter_models (call_filters res n))

    unfoldable pub runs_outside : Resolved → Filter → Option Model → Bool
    runs_outside res f none = true
    runs_outside res f (some m) = not (allows res.allowed_locations m.location)

    unfoldable pub filter_leaves : Resolved → Option Filter → Bool
    filter_leaves res none = false
    filter_leaves res (some f) =
        if not (uses_model f.mode) then false else runs_outside res f (find f.model)

    -- The loop of `filterOutside`: the first filter that runs outside the locations
    unfoldable pub first_outside : Resolved → List String → Option String
    first_outside res [] = none
    first_outside res (a ∷ aliases) =
        let later = first_outside res aliases in
        if filter_leaves res (find_filter a) then some a else later

    unfoldable pub outside_of : Option (List String) → Option String → Option String
    outside_of none found = none
    outside_of (some locations) found = found

    -- `filterOutside`
    unfoldable pub filter_outside : Resolved → List String → Option String
    unfolding outside_of first_outside filter_leaves runs_outside
    filter_outside res filters = outside_of res.allowed_locations (first_outside res filters)

-- `bytesPerToken`
abbrev pub bytes_per_token : ℕ
bytes_per_token = 3

-- `routeOutputTokens` of route.go
abbrev pub route_output_tokens : ℤ
route_output_tokens = pos 64

abbrev pub unstated_output_tokens : ℤ
unstated_output_tokens = pos 64_000

abbrev pub most_output_tokens : ℤ
most_output_tokens = pos 10_000_000

abbrev in_out : ℤ → ℤ → Tokens
in_out i o = record {
  input = i;
  cached_input = pos 0;
  cache_write = pos 0;
  cache_write_hour = pos 0;
  output = o;
}

-- `mostTokens`
unfoldable pub most_tokens : ℤ → ℤ → Tokens
most_tokens body_bytes output_ceiling = in_out (quot_ℕ body_bytes bytes_per_token) output_ceiling

unfoldable pub most_asked : List ℤ → ℤ
most_asked [] = pos 0
most_asked (v ∷ vs) =
    let rest = most_asked vs in
    if ltb_ℤ (pos 0) v then max_ℤ (min_ℤ v most_output_tokens) rest else rest

-- `outputCeiling`; `ceilings` are the fields that the body holds
unfoldable pub output_ceiling : List ℤ → ℤ
unfolding most_asked
output_ceiling ceilings =
    let asked = most_asked ceilings in if ltb_ℤ (pos 0) asked then asked else unstated_output_tokens

-- `outputTokens`
unfoldable pub output_tokens : Kind → List ℤ → ℤ
unfolding output_ceiling
output_tokens kind ceilings =
    if kind == "embedding" || kind == "rerank" then pos 0 else output_ceiling ceilings

credit_of_line : Option BillLine → ℤ
credit_of_line none = pos 0
credit_of_line (some line) = line.credit_micros

dearest : List Model → Tokens → ℤ
dearest [] t = pos 0
dearest (m ∷ ms) t =
    let rest = dearest ms t in
    elim (bill m t t) [ none ↦ rest | some line ↦ max_ℤ rest line.credit_micros ]

-- What the models cost together, each so many times, on top of `most`
summed : ℤ → List Model → Tokens → ℤ → ℤ
summed times [] t most = most
summed times (m ∷ ms) t most =
    summed times ms t (add64 most (mul64 times (credit_of_line (bill m t t))))

module _ (find : String → Option Model) (find_filter : String → Option Filter) where
  -- `filtersHold`
  unfoldable pub filters_hold : List String → ℤ → ℤ
  unfolding summed credit_of_line
  filters_hold filters i =
      summed (pos 1) (billed_filter_models find find_filter filters) (in_out i i) (pos 0)

  -- `creditHold`
  unfoldable pub credit_hold : Resolved → Named → ℤ → ℤ → ℤ
  unfolding dearest summed filters_hold credit_of_line
  credit_hold res n received ceiling =
      let t = most_tokens received ceiling in
      add64
        (summed (pos 2) (billed_deciders find n) (in_out t.input route_output_tokens)
          (dearest (billed_answerers find n) t))
        (filters_hold (call_filters res n) t.input)

some_tokens : Option BillLine → List BillLine
some_tokens none = []
some_tokens (some line) =
    if ltb_ℤ (pos 0) (add64 line.input_tokens line.output_tokens) then line ∷ [] else []

-- `answerCost`
unfoldable pub answer_cost : Model → Tokens → Tokens → ℤ × List BillLine
unfolding some_tokens
answer_cost m used counted =
    let t = if counts_tokens m then counted else used in
    let micros = cost m t in (micros, some_tokens (bill m t counted))

-- The sum of `record`
unfoldable pub credit_sum : List BillLine → ℤ → ℤ
credit_sum [] sum = sum
credit_sum (line ∷ lines) sum = credit_sum lines (add64 sum line.credit_micros)

-- `billUnreported`, of a model on the deployment's key: the tokens that are charged
unfoldable pub unreported : Bool → Tokens → ℤ → ℤ → Tokens
unreported platform_key used received ceiling =
    if not platform_key || ltb_ℤ (pos 0) (add64 used.input used.output)
    then used
    else record used { input = (most_tokens received ceiling).input; output = ceiling }
