-- ===== src/Gateway/Walk/Kept.antt =====
-- What every walk of internal/gateway/router.go keeps: a property of the budgets and of the scopes that
-- are counted, if charges and the limits that a request enters keep it.
use keera_gateway.Base.{
  ℕ, String, Bool, true, false, not, ◌&&◌, ◌||◌, Option, none, some, List, [], ◌∷◌, ◌++◌, ◌==◌,
  string_eq, All, All-split, Bool-cases, inl, inr,
}
use keera_gateway.Base.Int.{ℤ, pos, ltb_ℤ}
use keera_gateway.Base.Int64.{add64}
use keera_gateway.Policy.Model.{Model}
use keera_gateway.Policy.Route.{decides, mode_sizes}
use keera_gateway.Policy.Scope.{Scope}
use keera_gateway.Policy.Router.{
  Router, Link, absent, to, Step, step, StepFields, Branches, no_more, branch, is_absent, fields,
  route_of, kind_limits, steps, steps_in, step_filter, step_route, step_model, step_system_prompt,
  router_scopes,
}
use keera_gateway.Registry.Budgets.{Budgets, start_request, charge}
use keera_gateway.Ratelimit.Limiter.{Limiter}
use keera_gateway.Gateway.Serve.{ServeProblem, chat_problem, serveable}
use keera_gateway.Gateway.Limits.{OverLimit}
use keera_gateway.Gateway.Route.{Inputs, Decided, route}
use keera_gateway.Gateway.Walk.{
  Call, World, Walked, refused, placed, charged, hook_micros, router_filters, router_limit,
  after_check, decided, serves_kind, use_route, router_route, router_model, model_ends,
  model_checked, take_step, walk, walk_branches, use_router,
}

-- A property of the budgets and of the scopes that the call counts on.
pub record IsKept (now : ℕ) (G : Budgets → List Scope → Type 0) (Plain : Scope → Type 0)
    : Type 0 where
  pub charges :
      (b : Budgets) (scopes by : List Scope) (micros : ℤ)
      → G b scopes
      → G (charge b by micros now) scopes
  pub starts :
      (b : Budgets) (scopes more : List Scope)
      → All Plain more
      → G b scopes
      → G (start_request b more now) (scopes ++ more)

-- The scopes of the limits of every step.
abbrev pub HasPlainSteps : (Scope → Type 0) → Router → List Step → Type 0
HasPlainSteps Plain q l = All (λ (s : Step). All Plain (router_scopes q (fields s))) l

module _ (w : World) (G : Budgets → List Scope → Type 0) (Plain : Scope → Type 0)
    (kept : IsKept w.now G Plain) where
  abbrev Good : Call → Type 0
  Good c = G c.budgets c.scopes

  -- However the walk ended.
  abbrev pub Done : Walked → Type 0
  Done (placed c) = Good c
  Done (refused e c) = Good c

  charged-kept : (c : Call) (micros : ℤ) → Good c → G (charged w c micros) c.scopes
  unfolding charged
  charged-kept c micros g = elim (Bool-cases (ltb_ℤ (pos 0) micros)) [
    | inl some' ↦ rw some' (kept.charges c.budgets c.scopes c.scopes micros g)
    | inr none' ↦ rw none' g
  ]

  pub router_filters-kept :
      (aliases : List String) (c : Call) (on : Call → Walked)
      → ((c' : Call) → Good c' → Done (on c'))
      → Good c
      → Done (router_filters w aliases c on)
  unfolding router_filters
  router_filters-kept [] c on h g = h c g
  router_filters-kept (a ∷ aliases) c on h g =
      let run = w.filters c (a ∷ aliases) in
      elim (Bool-cases run.passed) [
        | inl passed ↦ rw passed (h _ (charged-kept c run.micros g))
        | inr stopped ↦ rw stopped (charged-kept c run.micros g)
      ]

  after_check-kept :
      (scopes : List Scope) (no_branch : Bool) (c : Call) (checked : Option OverLimit × Limiter)
      (on exceeded : Call → Walked)
      → All Plain scopes
      → ((c' : Call) → Good c' → Done (on c'))
      → ((c' : Call) → Good c' → Done (exceeded c'))
      → Good c
      → Done (after_check w scopes no_branch c checked on exceeded)
  unfolding after_check
  after_check-kept scopes no_branch c (none, lim) on exceeded plain h k g = h _ (
      kept.starts (charge c.budgets scopes (hook_micros c) w.now) c.scopes scopes plain
        (kept.charges c.budgets c.scopes scopes (hook_micros c) g))
  after_check-kept scopes true c (some o, lim) on exceeded plain h k g = g
  after_check-kept scopes false c (some o, lim) on exceeded plain h k g = k _ g

  decided-kept :
      (i : Inputs) (c : Call) (d : Decided) (on : Call → Walked)
      → ((c' : Call) → Good c' → Done (on c'))
      → Good c
      → Done (decided w i c d on)
  unfolding decided
  decided-kept i c (d, some r) on h g = g
  decided-kept i c (d, none) on h g = elim (Bool-cases i.hung_up) [
    | inl gone ↦ rw gone g
    | inr here ↦
        elim (Bool-cases (serveable w.find d.alias && serves_kind w.kind (w.find d.alias))) [
          | inr cannot ↦ rw (here, cannot) g
          | inl serves ↦ rw (here, serves) (h _ g)
        ]
  ]

  router_route-kept :
      (q : Router) (f : StepFields) (c : Call) (on : Call → Walked)
      → ((c' : Call) → Good c' → Done (on c'))
      → Good c
      → Done (router_route w q f c on)
  unfolding router_route use_route
  router_route-kept q f c on h g =
      let rt = route_of q f in
      let c' : Call = record c {
        earlier_micros = add64 c.earlier_micros c.decision_micros;
        earlier_bills = c.earlier_bills ++ c.decision_bills;
        decision_micros = pos 0;
        decision_bills = [];
        chain = [];
      } in
      elim (Bool-cases ((decides rt || mode_sizes rt.mode) && not (w.translates c'))) [
        | inl stuck ↦ rw stuck g
        | inr goes ↦ rw goes (
            decided-kept (w.inputs c' rt) _ (route w.find rt (w.inputs c' rt)) on h
              (charged-kept c' (route w.find rt (w.inputs c' rt)).0.micros g))
      ]

  router_model-kept : (f : StepFields) (c : Call) → Good c → Done (router_model w f c)
  unfolding router_model model_ends model_checked
  router_model-kept f c g = found (w.find f.ref)
    where
      checked : (m : Model) (q : Option ServeProblem) → Done (model_checked c m q)
      checked m none = g
      checked m (some q) = g

      found : (o : Option Model) → Done (model_ends c o)
      found none = g
      found (some m) = checked m (chat_problem (some m))

  take_step-kept :
      (q : Router) (f : StepFields) (no_branch : Bool) (c : Call)
      (on exceeded chosen : Call → Walked)
      → All Plain (router_scopes q f)
      → ((c' : Call) → Good c' → Done (on c'))
      → ((c' : Call) → Good c' → Done (exceeded c'))
      → ((c' : Call) → Good c' → Done (chosen c'))
      → Good c
      → Done (take_step w q f no_branch c on exceeded chosen)
  unfolding take_step router_limit
  take_step-kept q f no_branch c on exceeded chosen plain h k l g =
      elim (Bool-cases (kind_limits f.kind)) [
        | inl limit ↦
            rw limit (after_check-kept (router_scopes q f) no_branch c _ on exceeded plain h k g)
        | inr no_limit ↦ elim (Bool-cases (f.kind == step_route)) [
          | inl route' ↦ rw (no_limit, route') (router_route-kept q f c chosen l g)
          | inr no_route ↦ elim (Bool-cases (f.kind == step_system_prompt)) [
            | inl prompt ↦ rw (no_limit, no_route, prompt) (h _ g)
            | inr no_prompt' ↦ elim (Bool-cases (f.kind == step_model)) [
              | inl model ↦ rw (no_limit, no_route, no_prompt', model) (router_model-kept f c g)
              | inr unknown ↦ rw (no_limit, no_route, no_prompt', unknown) g
            ]
          ]
        ]
      ]

  module _ (q : Router) where
    mutual
      unfolding walk steps

      walk-kept :
          (link : Link)
          → HasPlainSteps Plain q (steps link)
          → (pending : List String) (c : Call) → Good c
          → Done (walk w q link pending c)
      walk-kept absent plain pending c g = router_filters-kept pending c placed (λ c' g'. g') g
      walk-kept (to (step f next exceeded bs)) (here, rest) pending c g =
          let (in_next, others) =
            All-split (λ (s : Step). All Plain (router_scopes q (fields s))) (steps next)
              (steps exceeded ++ steps_in bs) rest in
          let (in_exceeded, in_branches) =
            All-split (λ (s : Step). All Plain (router_scopes q (fields s))) (steps exceeded)
              (steps_in bs) others in
          elim (Bool-cases (f.kind == step_filter)) [
            | inl filter' ↦ rw filter' (walk-kept next in_next (pending ++ f.ref ∷ []) c g)
            | inr other ↦ rw other (
                router_filters-kept pending c _
                  (λ c'.
                    take_step-kept q f (is_absent exceeded) c' _ _ _ here
                      (walk-kept next in_next []) (walk-kept exceeded in_exceeded [])
                      (λ c'' g''. walk_branches-kept bs in_branches c''.alias c'' _ g'' g''))
                  g)
          ]

      walk_branches-kept :
          (bs : Branches)
          → HasPlainSteps Plain q (steps_in bs)
          → (a : String) (c : Call) (last : Walked) → Good c
          → Done last
          → Done (walk_branches w q bs a c last)
      walk_branches-kept no_more plain a c last g l = l
      walk_branches-kept (branch dest link rest) plain a c last g l =
          let (in_link, in_rest) =
            All-split (λ (s : Step). All Plain (router_scopes q (fields s))) (steps link)
              (steps_in rest) plain in
          elim (Bool-cases (dest == a)) [
            | inr other ↦ rw other (walk_branches-kept rest in_rest a c last g l)
            | inl same ↦ elim (Bool-cases (is_absent link)) [
              | inl none' ↦ rw (same, none') l
              | inr there ↦ rw (same, there) (walk-kept link in_link [] c g)
            ]
          ]

    pub use_router-kept :
        (c : Call) → HasPlainSteps Plain q (steps q.start) → Good c → Done (use_router w q c)
    unfolding use_router
    use_router-kept c plain g = walk-kept q.start plain [] c g
