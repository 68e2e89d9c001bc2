-- ===== src/Policy/Router/Problems.antt =====
-- The checks that a saved router passes: `Router.Problem`, `Step.problem`, `routeProblem`,
-- `leftoverProblem`, `ceilingProblem`, `headerProblem` and `answererProblem` of
-- internal/policy/router.go. A problem is named, not worded. Where the source ranges over a map in
-- no order and stops at the first problem, any of them may be the one that is named.
pub mod Checked
pub mod Answers
pub mod Ends
use keera_gateway.Base.{
  ℕ, suc, ◌+◌, ◌^◌, ◌*◌, String, Bool, true, false, Option, none, some, List, [], ◌∷◌, ◌&&◌, ◌||◌,
  ◌==◌, string_eq, nat_eq, not, ltb, leb, length, any, map, if◌then◌else◌, contains, bytes,
  trim_space,
}
use keera_gateway.Base.Dict.{Dict, get}
use keera_gateway.Base.Int.{ℤ, pos, eqb_ℤ}
use keera_gateway.Policy.Names.{valid_alias, valid_name, valid_header_name}
use keera_gateway.Policy.Model.{Model, kind_chat}
use keera_gateway.Policy.Filter.{Filter}
use keera_gateway.Policy.Limits.{LimitProblem, rate_problem, budget_problem}
use keera_gateway.Policy.Route.{
  RouteMode, route_mode_header, route_mode_valid, mode_decides, mode_chooses, mode_sizes, unbounded,
}
use keera_gateway.Policy.Router.{
  StepKind, step_filter, step_route, step_rate_limit, step_budget, step_model, step_system_prompt,
  step_kinds, kind_limits, kind_names, StepFields, Link, absent, to, Step, step, Branches, no_more,
  branch, fields, next_of, exceeded_of, branches_of, is_absent, steps, Router, RouterRefs,
  rate_limit, budget,
}

-- Why a model cannot answer through a router.
pub data AnswererProblem : Type 0 where
  unknown_model not_chat on_subscription : AnswererProblem

model_problem : Option Model → Option AnswererProblem
model_problem none = some unknown_model
model_problem (some m) =
    if not (m.kind == kind_chat)
    then some not_chat
    else if m.subscription
    then some on_subscription
    else none

-- `answererProblem`
unfoldable pub answerer_problem : String → RouterRefs → Option AnswererProblem
unfolding model_problem
answerer_problem alias refs = model_problem (get refs.models alias)

pub data StepProblem : Type 0 where
  unknown_kind names_something names_nothing has_prompt has_route_fields : StepProblem
  has_rates has_budget has_period has_exceeded has_branches : StepProblem
  route_has_next model_has_next no_next unknown_filter : StepProblem
  no_prompt prompt_too_long : StepProblem
  bad_limit : LimitProblem → StepProblem
  bad_mode leftover_model leftover_prompt leftover_fallback : StepProblem
  has_ceilings has_header no_model no_instruction no_destinations : StepProblem
  too_many_destinations bad_fallback repeated_destination : StepProblem
  cannot_answer : AnswererProblem → StepProblem
  bad_ceiling none_unbounded many_unbounded : StepProblem
  no_header bad_header credential_header no_values too_many_values : StepProblem
  bad_value value_goes_elsewhere unreached_destination : StepProblem
  bad_branch empty_branch : StepProblem

-- The first problem of two checks.
abbrev pub or_problem {ℓ} : {A : Type ℓ} → Option A → Option A → Option A
or_problem none q = q
or_problem (some p) q = some p

abbrev pub refused_as {ℓ κ} : {A : Type ℓ} {B : Type κ} → (A → B) → Option A → Option B
refused_as f none = none
refused_as f (some a) = some (f a)

abbrev pub is_there {ℓ} : {A : Type ℓ} → Option A → Bool
is_there none = false
is_there (some a) = true

abbrev pub max_route_prompt_bytes : ℕ
max_route_prompt_bytes = 4 * 2 ^ 10

abbrev pub max_step_prompt_bytes : ℕ
max_step_prompt_bytes = 16 * 2 ^ 10

abbrev pub max_router_steps : ℕ
max_router_steps = 64

abbrev pub max_destinations : ℕ
max_destinations = 16

abbrev pub max_header_values : ℕ
max_header_values = 32

-- `leftoverProblem`
unfoldable pub leftover_problem : StepFields → Option StepProblem
leftover_problem s =
    if mode_decides s.mode
    then none
    else if not (s.model == "")
    then some leftover_model
    else if not (s.prompt == "")
    then some leftover_prompt
    else if not (s.fallback == "") && not (mode_chooses s.mode)
    then some leftover_fallback
    else none

one_unbounded : List String → Option StepProblem
one_unbounded [] = some none_unbounded
one_unbounded (a ∷ []) = none
one_unbounded (a ∷ b ∷ rest) = some many_unbounded

-- `ceilingProblem`
unfoldable pub ceiling_problem : StepFields → Option StepProblem
unfolding one_unbounded
ceiling_problem s =
    if any (λ (e : String × ℤ). not (contains s.destinations e.0)) s.ceilings
    then some bad_ceiling
    else one_unbounded (unbounded s.destinations s.ceilings)

-- `strings.ToLower`, on the bytes of a header name
abbrev lower_byte : ℕ → ℕ
lower_byte c = if leb 0x41 c && leb c 0x5a then c + 0x20 else c

same_bytes : List ℕ → List ℕ → Bool
same_bytes [] [] = true
same_bytes [] (d ∷ ds) = false
same_bytes (c ∷ cs) [] = false
same_bytes (c ∷ cs) (d ∷ ds) = c == d && same_bytes cs ds

abbrev credential_headers : List String
credential_headers =
    "authorization" ∷ "proxy-authorization" ∷ "cookie" ∷ "x-api-key" ∷ "x-keera-key" ∷ []

-- `credentialHeaders[strings.ToLower(header)]`
unfoldable pub carries_credential : String → Bool
unfolding same_bytes
carries_credential header =
    any (λ (h : String). same_bytes (map lower_byte (bytes header)) (bytes h)) credential_headers

-- The loop over the values of a header step.
unfoldable pub values_problem : List String → Dict String → Option StepProblem
values_problem destinations [] = none
values_problem destinations ((value, dest) ∷ values) =
    let rest = values_problem destinations values in
    if not (valid_name value 32)
    then some bad_value
    else if not (contains destinations dest)
    then some value_goes_elsewhere
    else rest

-- `headerProblem`
unfoldable pub header_problem : StepFields → Option StepProblem
unfolding values_problem carries_credential
header_problem s =
    let reached = s.fallback ∷ map (λ (e : String × String). e.1) s.values in
    if s.header == ""
    then some no_header
    else if not (valid_header_name s.header)
    then some bad_header
    else if carries_credential s.header
    then some credential_header
    else if length s.values == 0
    then some no_values
    else if ltb max_header_values (length s.values)
    then some too_many_values
    else or_problem (values_problem s.destinations s.values) (
        if any (λ (d : String). not (contains reached d)) s.destinations
        then some unreached_destination
        else none)

-- The loop over the destinations of a route step.
unfoldable pub destinations_problem : RouterRefs → List String → List String → Option StepProblem
unfolding answerer_problem
destinations_problem refs seen [] = none
destinations_problem refs seen (d ∷ ds) =
    let rest = destinations_problem refs (d ∷ seen) ds in
    if contains seen d
    then some repeated_destination
    else or_problem (refused_as cannot_answer (answerer_problem d refs)) rest

-- The loop over the branches of a route step.
unfoldable pub branches_problem : List String → Branches → Option StepProblem
branches_problem destinations no_more = none
branches_problem destinations (branch dest link rest) =
    let later = branches_problem destinations rest in
    if not (contains destinations dest)
    then some bad_branch
    else if is_absent link
    then some empty_branch
    else later

-- The switch of `routeProblem`.
unfoldable pub route_fields_problem : StepFields → Option StepProblem
route_fields_problem s =
    let n = length s.destinations in
    if not (length s.ceilings == 0) && not (mode_sizes s.mode)
    then some has_ceilings
    else if (not (s.header == "") || not (length s.values == 0))
        && not (s.mode == route_mode_header)
    then some has_header
    else if mode_decides s.mode && s.model == ""
    then some no_model
    else if mode_decides s.mode && trim_space s.prompt == ""
    then some no_instruction
    else if ltb max_route_prompt_bytes (length (bytes s.prompt))
    then some prompt_too_long
    else if n == 0
    then some no_destinations
    else if ltb max_destinations n
    then some too_many_destinations
    else if not (s.fallback == "") && not (contains s.destinations s.fallback)
    then some bad_fallback
    else none

-- `routeProblem`
unfoldable pub route_problem : RouterRefs → StepFields → Branches → Option StepProblem
unfolding leftover_problem route_fields_problem destinations_problem ceiling_problem header_problem
    branches_problem
route_problem refs s branches =
    if not (route_mode_valid s.mode)
    then some bad_mode
    else or_problem (leftover_problem s) (
        or_problem (route_fields_problem s) (
          or_problem (destinations_problem refs [] s.destinations) (
            or_problem (if mode_sizes s.mode then ceiling_problem s else none) (
              or_problem (if s.mode == route_mode_header then header_problem s else none)
                (branches_problem s.destinations branches)))))

abbrev has_no_branches : Branches → Bool
has_no_branches no_more = true
has_no_branches (branch dest link rest) = false

-- The first switch of `Step.problem`.
unfoldable pub shape_problem : Step → Option StepProblem
shape_problem st =
    let s = fields st in
    let k = s.kind in
    let routes = k == step_route in
    if not (kind_names k) && not (s.ref == "")
    then some names_something
    else if kind_names k && s.ref == ""
    then some names_nothing
    else if not (k == step_system_prompt) && not routes && not (s.prompt == "")
    then some has_prompt
    else if not routes
        && (not (s.mode == "")
            || not (s.model == "")
            || not (length s.destinations == 0)
            || not (length s.ceilings == 0)
            || not (s.fallback == "")
            || not (s.header == "")
            || not (length s.values == 0))
    then some has_route_fields
    else if not (k == step_rate_limit)
        && (not (eqb_ℤ s.requests (pos 0)) || not (eqb_ℤ s.tokens (pos 0)))
    then some has_rates
    else if not (k == step_budget) && not (eqb_ℤ s.budget_micros (pos 0))
    then some has_budget
    else if not (kind_limits k) && not (s.period == "")
    then some has_period
    else if not (kind_limits k) && not (is_absent (exceeded_of st))
    then some has_exceeded
    else if not routes && not (has_no_branches (branches_of st))
    then some has_branches
    else if routes && not (is_absent (next_of st))
    then some route_has_next
    else if k == step_model && not (is_absent (next_of st))
    then some model_has_next
    else if not routes && not (k == step_model) && is_absent (next_of st)
    then some no_next
    else none

-- The second switch of `Step.problem`.
unfoldable pub use_problem : RouterRefs → Step → Option StepProblem
unfolding route_problem
use_problem refs st =
    let s = fields st in
    let k = s.kind in
    if k == step_filter
    then (if is_there (get refs.filters s.ref) then none else some unknown_filter)
    else if k == step_route
    then route_problem refs s (branches_of st)
    else if k == step_model
    then refused_as cannot_answer (answerer_problem s.ref refs)
    else if k == step_rate_limit
    then refused_as bad_limit (rate_problem (rate_limit s))
    else if k == step_system_prompt
    then (if trim_space s.prompt == ""
        then some no_prompt
        else if ltb max_step_prompt_bytes (length (bytes s.prompt))
        then some prompt_too_long
        else none)
    else if k == step_budget
    then refused_as bad_limit (budget_problem (budget s))
    else none

-- `Step.problem`
unfoldable pub step_problem : RouterRefs → Step → Option StepProblem
unfolding shape_problem use_problem
step_problem refs st =
    if not (contains step_kinds (fields st).kind)
    then some unknown_kind
    else or_problem (shape_problem st) (use_problem refs st)

pub data RouterProblem : Type 0 where
  bad_alias no_start too_many_steps bad_step_id repeated_step_id : RouterProblem
  bad_step : StepProblem → RouterProblem

-- The loop of `Router.Problem`, with the number of steps and their ids so far.
unfoldable pub steps_problem : RouterRefs → ℕ → List String → List Step → Option RouterProblem
steps_problem refs n seen [] = none
steps_problem refs n seen (s ∷ rest) =
    let id = (fields s).id in
    let later = steps_problem refs (suc n) (id ∷ seen) rest in
    if ltb max_router_steps (suc n)
    then some too_many_steps
    else if not (valid_name id 32)
    then some bad_step_id
    else if contains seen id
    then some repeated_step_id
    else or_problem (refused_as bad_step (step_problem refs s)) later

-- `Router.Problem`
unfoldable pub problem : Router → RouterRefs → Option RouterProblem
unfolding steps_problem
problem p refs =
    if not (valid_alias p.alias)
    then some bad_alias
    else if is_absent p.start
    then some no_start
    else steps_problem refs 0 [] (steps p.start)
