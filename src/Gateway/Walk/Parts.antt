-- ===== src/Gateway/Walk/Parts.antt =====
-- The parts of the walk of internal/gateway/router.go: each refuses, or goes on as it was told to.
use keera_gateway.Base.{
  ◌++◌, String, Bool, true, false, not, ◌&&◌, ◌||◌, Option, none, some, List, [], ◌∷◌, ◌==◌,
  string_eq, contains, any, All, Bool-cases, ◌≡◌, refl, inl, inr, text_eq_iff, arith,
}
use keera_gateway.Base.Int.{pos}
use keera_gateway.Base.Int64.{add64}
use keera_gateway.Policy.Model.{Model}
use keera_gateway.Policy.Route.{Route, decides, mode_sizes}
use keera_gateway.Policy.Router.{
  Router, Step, StepFields, Branches, branch_at, is_absent, route_of, kind_limits, step_route,
  step_model, step_system_prompt,
}
use keera_gateway.Policy.Router.Reach.{has_end, sends_to}
use keera_gateway.Gateway.Serve.{ServeProblem, chat_problem, serveable}
use keera_gateway.Gateway.Limits.{OverLimit}
use keera_gateway.Ratelimit.Limiter.{Limiter}
use keera_gateway.Policy.Scope.{Scope}
use keera_gateway.Gateway.Route.{Inputs, Decided, route}
use keera_gateway.Gateway.Route.Places.{IsClosed, Reorders, Among, Keeps, route-Keeps}
use keera_gateway.Policy.Router.{kind_limits}
use keera_gateway.Gateway.Walk.{
  Call, World, Walked, refused, placed, router_filters, router_limit, after_check, decided,
  serves_kind, use_route, router_route, router_model, take_step, model_ends, model_checked,
  without_branch,
}

-- A model that some of these steps send to.
abbrev pub Sent : List Step → String → Type 0
Sent l a = any (sends_to a) l ≡ true

-- The walk ended in a refusal, or at a model that the steps send to and a chain of such.
abbrev pub Lands : List Step → Walked → Type 0
Lands l (refused e c) = Unit
Lands l (placed c) = Sent l c.alias × All (Sent l) c.chain

pub All-imp {ℓ κ μ} :
    {A : Type ℓ} {P : A → Type κ} {Q : A → Type μ} (f : (x : A) → P x → Q x) (xs : List A)
    → All P xs
    → All Q xs
All-imp f [] h = tt
All-imp f (x ∷ xs) (h, hs) = (f x h, All-imp f xs hs)

pub Lands-more :
    (xs ys : List Step) (r : Walked)
    → ((a : String) → Sent xs a → Sent ys a)
    → Lands xs r
    → Lands ys r
Lands-more xs ys (refused e c) f h = tt
Lands-more xs ys (placed c) f (h, hs) = (f c.alias h, All-imp f c.chain hs)

-- What the walk relies on: a measured order keeps the destinations, and a model is found under its
-- own alias.
pub record IsWorld (w : World) : Type 0 where
  pub reorders : (c : Call) (rt : Route) → Reorders (w.inputs c rt).order
  pub named : (a : String) (m : Model) → w.find a ≡ some m → m.alias ≡ a

-- Two kinds are not one.
pub other_kind : (k k' k'' : String) → (k == k') ≡ true → (k' == k'') ≡ false → (k == k'') ≡ false
other_kind k k' k'' h other = let e : k ≡ k' = (text_eq_iff k k').0 h in rw e other

limit_kind : (k k' : String) → kind_limits k ≡ true → kind_limits k' ≡ false → (k == k') ≡ false
unfolding kind_limits
limit_kind k k' h other = ground (arith, text_eq_iff k k')

model_no_limit : kind_limits step_model ≡ false
unfolding kind_limits
model_no_limit = refl

route_no_limit : kind_limits step_route ≡ false
unfolding kind_limits
route_no_limit = refl

module _ (w : World) (l : List Step) where
  pub router_filters-Lands :
      (aliases : List String) (c : Call) (on : Call → Walked)
      → ((c' : Call) → Lands l (on c'))
      → Lands l (router_filters w aliases c on)
  unfolding router_filters
  router_filters-Lands [] c on h = h c
  router_filters-Lands (a ∷ aliases) c on h =
      elim (Bool-cases ((w.filters c (a ∷ aliases)).passed)) [
        | inl passed ↦ rw passed (h _)
        | inr stopped ↦ rw stopped tt
      ]

  after_check-Lands :
      (scopes : List Scope) (no_branch : Bool) (c : Call) (checked : Option OverLimit × Limiter)
      (on exceeded : Call → Walked)
      → ((c' : Call) → Lands l (on c'))
      → (no_branch ≡ false → (c' : Call) → Lands l (exceeded c'))
      → Lands l (after_check w scopes no_branch c checked on exceeded)
  unfolding after_check
  after_check-Lands scopes no_branch c (none, lim) on exceeded h k = h _
  after_check-Lands scopes true c (some o, lim) on exceeded h k = tt
  after_check-Lands scopes false c (some o, lim) on exceeded h k = k refl _

  pub router_limit-Lands :
      (p : Router) (f : StepFields) (no_branch : Bool) (c : Call) (on exceeded : Call → Walked)
      → ((c' : Call) → Lands l (on c'))
      → (no_branch ≡ false → (c' : Call) → Lands l (exceeded c'))
      → Lands l (router_limit w p f no_branch c on exceeded)
  unfolding router_limit
  router_limit-Lands p f no_branch c on exceeded h k =
      after_check-Lands _ no_branch c _ on exceeded h k

  decided-Lands :
      (i : Inputs) (c : Call) (d : Decided) (names : List String) (on : Call → Walked)
      → Keeps names i.hung_up d
      → c.chain ≡ d.0.chain
      → ((c' : Call) → contains names c'.alias ≡ true → Among names c'.chain → Lands l (on c'))
      → Lands l (decided w i c d on)
  unfolding decided
  decided-Lands i c (d, some r) names on k e h = tt
  decided-Lands i c (d, none) names on k e h = elim (Bool-cases i.hung_up) [
    | inl gone ↦ rw gone tt
    | inr here ↦
        let (alias, chain) = rw here at k in
        elim (Bool-cases (serveable w.find d.alias && serves_kind w.kind (w.find d.alias))) [
          | inr cannot ↦ rw (here, cannot) tt
          | inl serves ↦ rw (here, serves) (h _ alias (rw e chain))
        ]
  ]

  use_route-Lands :
      (rt : Route) (c : Call) (on : Call → Walked)
      → IsClosed rt
      → ((c' : Call) → Reorders (w.inputs c' rt).order)
      → ((c' : Call)
          → contains rt.destinations c'.alias ≡ true
          → Among rt.destinations c'.chain
          → Lands l (on c'))
      → Lands l (use_route w rt c on)
  unfolding use_route
  use_route-Lands rt c on closed order h =
      let i = w.inputs c rt in
      decided-Lands i _ (route w.find rt i) rt.destinations on
        (route-Keeps w.find rt closed i (order c)) refl h

  pub router_route-Lands :
      (p : Router) (f : StepFields) (c : Call) (on : Call → Walked)
      → IsClosed (route_of p f)
      → ((c' : Call) → Reorders (w.inputs c' (route_of p f)).order)
      → ((c' : Call)
          → contains f.destinations c'.alias ≡ true
          → Among f.destinations c'.chain
          → Lands l (on c'))
      → Lands l (router_route w p f c on)
  unfolding router_route route_of
  router_route-Lands p f c on closed order h =
      let rt = route_of p f in
      let c' : Call = record c {
        earlier_micros = add64 c.earlier_micros c.decision_micros;
        earlier_bills = c.earlier_bills ++ c.decision_bills;
        decision_micros = pos 0;
        decision_bills = [];
        chain = [];
      } in
      elim (Bool-cases ((decides rt || mode_sizes rt.mode) && not (w.translates c'))) [
        | inl stuck ↦ rw stuck tt
        | inr goes ↦ rw goes (use_route-Lands rt c' on closed order h)
      ]

  model_ends-Lands :
      (c : Call) (a : String) (o : Option Model)
      → ((m : Model) → o ≡ some m → m.alias ≡ a)
      → Sent l a
      → Lands l (model_ends c o)
  unfolding model_ends model_checked
  model_ends-Lands c a none named h = tt
  model_ends-Lands c a (some m) named h = go (chat_problem (some m))
    where
      go : (q : Option ServeProblem) → Lands l (model_checked c m q)
      go none = (rw (named m refl) h, tt)
      go (some q) = tt

  pub router_model-Lands :
      (f : StepFields) (c : Call)
      → ((m : Model) → w.find f.ref ≡ some m → m.alias ≡ f.ref)
      → Sent l f.ref
      → Lands l (router_model w f c)
  unfolding router_model
  router_model-Lands f c named h = model_ends-Lands c f.ref (w.find f.ref) named h

  -- One step that is no filter, where what it goes on with lands.
  pub take_step-Lands :
      (world : IsWorld w) (p : Router) (f : StepFields) (no_branch : Bool) (c : Call)
      (on exceeded chosen : Call → Walked)
      → ((f.kind == step_route) ≡ true → IsClosed (route_of p f))
      → ((f.kind == step_model) ≡ false
          → (f.kind == step_route) ≡ false
          → (c' : Call) → Lands l (on c'))
      → (no_branch ≡ false → (c' : Call) → Lands l (exceeded c'))
      → ((f.kind == step_route) ≡ true
          → (f.kind == step_model) ≡ false
          → (c' : Call) → contains f.destinations c'.alias ≡ true
          → Among f.destinations c'.chain
          → Lands l (chosen c'))
      → ((f.kind == step_model) ≡ true → Sent l f.ref)
      → Lands l (take_step w p f no_branch c on exceeded chosen)
  unfolding take_step
  take_step-Lands world p f no_branch c on exceeded chosen closed next above picked sent =
      elim (Bool-cases (kind_limits f.kind)) [
        | inl limit ↦
            let onward =
              next (limit_kind f.kind step_model limit model_no_limit)
                (limit_kind f.kind step_route limit route_no_limit) in
            rw limit (router_limit-Lands p f no_branch c on exceeded onward above)
        | inr no_limit ↦ elim (Bool-cases (f.kind == step_route)) [
          | inl route' ↦
              let other = other_kind f.kind step_route step_model route' refl in
              rw (no_limit, route')
                (router_route-Lands p f c chosen (closed route')
                  (λ c''. world.reorders c'' (route_of p f)) (picked route' other))
          | inr no_route ↦ elim (Bool-cases (f.kind == step_system_prompt)) [
            | inl prompt ↦
                let other = other_kind f.kind step_system_prompt step_model prompt refl in
                rw (no_limit, no_route, prompt) (next other no_route _)
            | inr no_prompt' ↦ elim (Bool-cases (f.kind == step_model)) [
              | inl model ↦
                  rw (no_limit, no_route, no_prompt', model)
                    (router_model-Lands f c (world.named f.ref) (sent model))
              | inr unknown ↦ rw (no_limit, no_route, no_prompt', unknown) tt
            ]
          ]
        ]
      ]

-- A destination without a branch is one that its step sends to.
pub has_end-contains :
    (bs : Branches) (ds : List String) (a : String)
    → contains ds a ≡ true
    → is_absent (branch_at bs a) ≡ true
    → has_end bs ds a ≡ true
unfolding contains
has_end-contains bs [] a h k = h
has_end-contains bs (d ∷ ds) a h k = elim (Bool-cases (d == a)) [
  | inr other ↦ rw other (ground (arith, has_end-contains bs ds a (rw other at h) k))
  | inl same ↦
      let e : d ≡ a = (text_eq_iff d a).0 same in
      let k' : is_absent (branch_at bs d) ≡ true = rw e k in rw (k', same) refl
]

-- What is left of a chain has no branch.
pub without_branch-All :
    (bs : Branches) (ds chain : List String)
    → Among ds chain
    → All (λ (a : String). has_end bs ds a ≡ true) (without_branch bs chain)
unfolding without_branch
without_branch-All bs ds [] h = tt
without_branch-All bs ds (a ∷ chain) (h, hs) = elim (Bool-cases (is_absent (branch_at bs a))) [
  | inl end ↦ rw end (has_end-contains bs ds a h end, without_branch-All bs ds chain hs)
  | inr further ↦ rw further (without_branch-All bs ds chain hs)
]
