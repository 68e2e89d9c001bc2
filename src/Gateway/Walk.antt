-- ===== src/Gateway/Walk.antt =====
-- `useRouter` of internal/gateway/router.go and `useRoute` of serve.go: the walk over a router's steps
-- until a model is chosen. What the filters, the client and the models answer is a record of
-- functions (`World`); refusals are named, not worded; logs, metrics and traces are left out.
pub mod Closed
pub mod Parts
pub mod Lands
pub mod Kept
use keera_gateway.Base.{
  ℕ, String, Bool, true, false, not, ◌&&◌, ◌||◌, Option, none, some, List, [], ◌∷◌, ◌++◌, ◌==◌,
  string_eq, if◌then◌else◌,
}
use keera_gateway.Base.Int.{ℤ, pos, ltb_ℤ}
use keera_gateway.Base.Int64.{add64}
use keera_gateway.Policy.Model.{Model, Kind}
use keera_gateway.Policy.Scope.{Scope}
use keera_gateway.Policy.Bill.{BillLine}
use keera_gateway.Policy.Limits.{per_minute}
use keera_gateway.Policy.Route.{Route, decides, mode_sizes}
use keera_gateway.Policy.Router.{
  Router, Link, absent, to, Step, step, StepFields, Branches, no_more, branch, branch_at, is_absent,
  route_of, router_scopes, rate_limit, kind_limits, step_filter, step_route, step_budget,
  step_model, step_system_prompt,
}
use keera_gateway.Registry.Budgets.{Budgets, charge, start_request}
use keera_gateway.Ratelimit.Limiter.{Limiter}
use keera_gateway.Gateway.Serve.{ServeProblem, not_found, chat_problem, serveable}
use keera_gateway.Gateway.Limits.{OverLimit, check_rates, check_quotas, check_budgets}
use keera_gateway.Gateway.Route.{Inputs, RouteDecision, Decided, Refusal, route}

-- What a request has of its router so far, with the state that it changes.
pub record Call : Type 0 where
  pub alias : String
  pub model : Option Model
  pub chain : List String
  pub prompts : List String
  pub scopes : List Scope
  pub filter_micros : ℤ
  pub decision_micros : ℤ
  pub earlier_micros : ℤ
  pub filter_bills : List BillLine
  pub decision_bills : List BillLine
  pub earlier_bills : List BillLine
  pub ran : List String
  pub budgets : Budgets
  pub limiter : Limiter

-- A run of filters: what it cost, the filters that ran, and whether the request goes on.
pub record FilterRun : Type 0 where
  pub micros : ℤ
  pub bills : List BillLine
  pub ran : List String
  pub passed : Bool

pub record World : Type 0 where
  pub find : String → Option Model
  pub kind : Kind
  pub now : ℕ
  pub filters : Call → List String → FilterRun
  pub inputs : Call → Route → Inputs
  pub translates : Call → Bool

-- Why a walk ends without a model.
pub data Ending : Type 0 where
  over : OverLimit → Ending
  not_routed : Refusal → Ending
  broken_model : ServeProblem → Ending
  hung_up filtered untranslated not_served unknown_step : Ending

pub data Walked : Type 0 where
  refused : Ending → Call → Walked
  placed : Call → Walked

-- `hookMicros`
unfoldable pub hook_micros : Call → ℤ
hook_micros c = add64 (add64 c.filter_micros c.decision_micros) c.earlier_micros

-- `hookBills`
unfoldable pub hook_bills : Call → List BillLine
hook_bills c = c.filter_bills ++ (c.decision_bills ++ c.earlier_bills)

-- `if micros > 0 { Charge }`
charged : World → Call → ℤ → Budgets
charged w c micros =
    if ltb_ℤ (pos 0) micros then charge c.budgets c.scopes micros w.now else c.budgets

-- `routerFilters`, and on with the rest
unfoldable pub router_filters : World → List String → Call → (Call → Walked) → Walked
unfolding charged
router_filters w [] c on = on c
router_filters w (a ∷ aliases) c on =
    let run = w.filters c (a ∷ aliases) in
    let c' : Call = record c {
      filter_micros = add64 c.filter_micros run.micros;
      filter_bills = c.filter_bills ++ run.bills;
      ran = c.ran ++ run.ran;
      budgets = charged w c run.micros;
    } in
    if run.passed then on c' else refused filtered c'

-- The checks of a limit step
check_limit : World → StepFields → List Scope → Call → Option OverLimit × Limiter
check_limit w f scopes c =
    if f.kind == step_budget
    then (check_budgets c.budgets scopes w.now, c.limiter)
    else if per_minute (rate_limit f)
    then check_rates c.limiter scopes w.now
    else (check_quotas c.budgets scopes w.now, c.limiter)

after_check :
    World
    → List Scope
    → Bool
    → Call
    → Option OverLimit × Limiter
    → (Call → Walked)
    → (Call → Walked)
    → Walked
after_check w scopes no_branch c (none, l) on exceeded = on (record c {
  scopes = c.scopes ++ scopes;
  budgets = start_request (charge c.budgets scopes (hook_micros c) w.now) scopes w.now;
  limiter = l;
})
after_check w scopes no_branch c (some o, l) on exceeded =
    let c' : Call = record c { limiter = l } in
    if no_branch then refused (over o) c' else exceeded c'

-- `routerLimit`, and on with the next step or the exceeded branch, which may be absent
unfoldable pub router_limit :
    World → Router → StepFields → Bool → Call → (Call → Walked) → (Call → Walked) → Walked
unfolding check_limit after_check hook_micros
router_limit w p f no_branch c on exceeded =
    let scopes = router_scopes p f in
    after_check w scopes no_branch c (check_limit w f scopes c) on exceeded

serves_kind : Kind → Option Model → Bool
serves_kind k none = false
serves_kind k (some m) = m.kind == k

decided : World → Inputs → Call → Decided → (Call → Walked) → Walked
decided w i c (d, some r) on = refused (not_routed r) c
decided w i c (d, none) on =
    if i.hung_up
    then refused hung_up c
    else if not (serveable w.find d.alias && serves_kind w.kind (w.find d.alias))
    then refused not_served (record c { alias = d.alias })
    else on (record c { alias = d.alias; model = w.find d.alias })

-- `useRoute`, and on with the chosen model
unfoldable pub use_route : World → Route → Call → (Call → Walked) → Walked
unfolding decided serves_kind charged
use_route w rt c on =
    let i = w.inputs c rt in
    let d = route w.find rt i in
    let c' : Call = record c {
      decision_micros = d.0.micros;
      decision_bills = d.0.bills;
      chain = d.0.chain;
      budgets = charged w c d.0.micros;
    } in
    decided w i c' d on

-- The destinations without a branch
unfoldable pub without_branch : Branches → List String → List String
without_branch bs [] = []
without_branch bs (a ∷ rest) =
    let more = without_branch bs rest in if is_absent (branch_at bs a) then a ∷ more else more

-- `routerRoute`, and on with the branch of the choice
unfoldable pub router_route : World → Router → StepFields → Call → (Call → Walked) → Walked
unfolding use_route
router_route w p f c on =
    let rt = route_of p f in
    let c' : Call = record c {
      earlier_micros = add64 c.earlier_micros c.decision_micros;
      earlier_bills = c.earlier_bills ++ c.decision_bills;
      decision_micros = pos 0;
      decision_bills = [];
      chain = [];
    } in
    if (decides rt || mode_sizes rt.mode) && not (w.translates c')
    then refused untranslated c'
    else use_route w rt c' on

model_checked : Call → Model → Option ServeProblem → Walked
model_checked c m (some p) = refused (broken_model p) c
model_checked c m none = placed (record c { alias = m.alias; model = some m; chain = [] })

model_ends : Call → Option Model → Walked
model_ends c none = refused (broken_model not_found) c
model_ends c (some m) = model_checked c m (chat_problem (some m))

-- `routerModel`
unfoldable pub router_model : World → StepFields → Call → Walked
unfolding model_ends model_checked
router_model w f c = model_ends c (w.find f.ref)

-- The switch of `useRouter` at a step that is no filter
unfoldable pub take_step :
    World
    → Router
    → StepFields
    → Bool
    → Call
    → (Call → Walked)
    → (Call → Walked)
    → (Call → Walked)
    → Walked
unfolding router_limit router_route router_model
take_step w p f no_branch c on exceeded chosen =
    if kind_limits f.kind
    then router_limit w p f no_branch c on exceeded
    else if f.kind == step_route
    then router_route w p f c chosen
    else if f.kind == step_system_prompt
    then on (record c { prompts = c.prompts ++ f.prompt ∷ [] })
    else if f.kind == step_model
    then router_model w f c
    else refused unknown_step c

-- The loop of `useRouter`, with the filters that stand in a row before the step
unfoldable mutual
  unfolding router_filters take_step without_branch

  pub walk : World → Router → Link → List String → Call → Walked
  walk w p absent pending c = router_filters w pending c placed
  walk w p (to (step f next exceeded bs)) pending c =
      let gathered = walk w p next (pending ++ f.ref ∷ []) c in
      let other = router_filters w pending c (λ c'.
        take_step w p f (is_absent exceeded) c' (λ c''. walk w p next [] c'')
          (λ c''. walk w p exceeded [] c'')
          (λ c''.
            walk_branches w p bs c''.alias c''
              (placed (record c'' { chain = without_branch bs c''.chain })))) in
      if f.kind == step_filter then gathered else other

  pub walk_branches : World → Router → Branches → String → Call → Walked → Walked
  walk_branches w p no_more a c last = last
  walk_branches w p (branch dest link rest) a c last =
      let here = walk w p link [] c in
      let later = walk_branches w p rest a c last in
      if dest == a then (if is_absent link then last else here) else later

-- `useRouter`
unfoldable pub use_router : World → Router → Call → Walked
unfolding walk
use_router w p c = walk w p p.start [] c
