-- ===== src/Gateway/Target/Reach.antt =====
-- What a request may be aimed at by internal/gateway/serve.go: only what its key may call.
use keera_gateway.Base.{
  String, Bool, true, false, not, ◌&&◌, ◌||◌, Option, none, some, ◌==◌, string_eq, nat_eq, length,
  Bool-cases, if◌then◌else◌, ◌≡◌, refl, inl, inr, arith,
}
use keera_gateway.Policy.Model.{Model, Kind, kind_decision}
use keera_gateway.Policy.Resolve.{Resolved, may_use}
use keera_gateway.Policy.Router.{Router, may_call_router}
use keera_gateway.Gateway.Target.{
  Named, to_model, to_router, TargetProblem, org_limited, no_backend, subscription_refused,
  Targeted, target_refused, targets, alias_problem, model_callable, router_callable, found_callable,
  callable, looked_up, lookup_model, ready, named_well, target,
}

module _ (find : String → Option Model) (find_router : String → Option Router) (res : Resolved)
    (alias : String) (kind : Kind) where
  -- What a key may call under the alias, on this surface.
  abbrev pub MayReach : Named → Type 0
  MayReach (to_model m) =
      (find alias ≡ some m)
      × (m.enabled ≡ true)
      × (m.locked ≡ false)
      × ((length m.backends == 0) ≡ false)
      × ((m.kind == kind_decision) ≡ false)
      × ((kind == "" || m.kind == kind) ≡ true)
      × (may_use res m ≡ true)
  MayReach (to_router q) = (find_router alias ≡ some q) × (may_call_router res q find ≡ true)

  -- The same without the checks of `target`.
  abbrev Callable : Named → Type 0
  Callable (to_model m) =
      (find alias ≡ some m)
      × (m.enabled ≡ true)
      × ((m.kind == kind_decision) ≡ false)
      × ((kind == "" || m.kind == kind) ≡ true)
      × (may_use res m ≡ true)
  Callable (to_router q) = (find_router alias ≡ some q) × (may_call_router res q find ≡ true)

  abbrev MaybeCallable : Option Named → Type 0
  MaybeCallable none = Unit
  MaybeCallable (some n) = Callable n

  model_callable-Callable :
      (m : Model) → find alias ≡ some m → MaybeCallable (model_callable find find_router res kind m)
  unfolding model_callable
  model_callable-Callable m e =
      elim (Bool-cases (
        m.enabled
        && not (m.kind == kind_decision)
        && (kind == "" || m.kind == kind)
        && may_use res m)) [
          | inl all' ↦ rw all' (e, ground arith, ground arith, ground arith, ground arith)
          | inr some' ↦ rw some' tt
        ]

  router_callable-Callable :
      (o : Option Router)
      → find_router alias ≡ o
      → MaybeCallable (router_callable find find_router res o)
  unfolding router_callable
  router_callable-Callable none e = tt
  router_callable-Callable (some q) e = elim (Bool-cases (may_call_router res q find)) [
    | inl may ↦ rw may (e, may)
    | inr no' ↦ rw no' tt
  ]

  found_callable-Callable :
      (o : Option Model)
      → find alias ≡ o
      → MaybeCallable (found_callable find find_router res alias kind o)
  unfolding found_callable
  found_callable-Callable (some m) e = model_callable-Callable m e
  found_callable-Callable none e = elim (Bool-cases (not (kind == "") && not (kind == "chat"))) [
    | inl other ↦ rw other tt
    | inr chat ↦ rw chat (router_callable-Callable (find_router alias) refl)
  ]

  callable-Callable : MaybeCallable (callable find find_router res alias kind)
  unfolding callable
  callable-Callable = elim (Bool-cases (alias == "")) [
    | inl empty ↦ rw empty tt
    | inr named ↦ rw named (found_callable-Callable (find alias) refl)
  ]

  abbrev Unlocked : Named → Type 0
  Unlocked (to_model m) = Callable (to_model m) × (m.locked ≡ false)
  Unlocked (to_router q) = Callable (to_router q)

  abbrev MaybeReach : (Named → Type 0) → Targeted → Type 0
  MaybeReach P (target_refused why) = Unit
  MaybeReach P (targets n) = P n

  looked_up-Unlocked :
      (o : Option Named) → MaybeCallable o → MaybeReach Unlocked (looked_up find find_router o)
  unfolding looked_up
  looked_up-Unlocked none h = tt
  looked_up-Unlocked (some (to_router q)) h = h
  looked_up-Unlocked (some (to_model m)) h = by_lock m.locked refl
    where
      by_lock :
          (b : Bool)
          → m.locked ≡ b
          → MaybeReach Unlocked (if b then target_refused org_limited else targets (to_model m))
      by_lock true e = tt
      by_lock false e = (h, e)

  ready-MayReach :
      (signed_in : Bool) (r : Targeted)
      → MaybeReach Unlocked r
      → MaybeReach MayReach (ready find find_router signed_in r)
  unfolding ready
  ready-MayReach signed_in (target_refused why) h = tt
  ready-MayReach signed_in (targets (to_router q)) h = h
  ready-MayReach signed_in (targets (to_model m)) (c, open') =
      by_backend (length m.backends == 0) refl (m.subscription && not signed_in)
    where
      by_backend :
          (bare : Bool)
          → (length m.backends == 0) ≡ bare
          → (refused : Bool)
          → MaybeReach MayReach (
              if bare
              then target_refused no_backend
              else if refused
              then target_refused subscription_refused
              else targets (to_model m))
      by_backend true e refused = tt
      by_backend false e true = tt
      by_backend false e false = (c.0, c.1, open', e, c.2, c.3, c.4)

  target-Reached :
      (printable : String → Bool) (signed_in : Bool)
      → MaybeReach MayReach (target find find_router printable signed_in res alias kind)
  unfolding target named_well lookup_model
  target-Reached printable signed_in = named (alias_problem printable alias)
    where
      named :
          (o : Option TargetProblem)
          → MaybeReach MayReach (
              named_well find find_router o
                (ready find find_router signed_in (lookup_model find find_router res alias kind)))
      named (some why) = tt
      named none = ready-MayReach signed_in _ (looked_up-Unlocked _ callable-Callable)

  -- A request that is not refused is aimed at a model of that alias that is enabled, not locked, has a
  -- backend, is no decision model, serves this surface, and that the key may use; or at a router of
  -- that alias that the key may call.
  pub target-MayReach :
      (printable : String → Bool) (signed_in : Bool) (n : Named)
      → target find find_router printable signed_in res alias kind ≡ targets n
      → MayReach n
  target-MayReach printable signed_in n e = rw e at (target-Reached printable signed_in)

  pub target-to_router :
      (printable : String → Bool) (signed_in : Bool) (q : Router)
      → target find find_router printable signed_in res alias kind ≡ targets (to_router q)
      → find_router alias ≡ some q
  target-to_router printable signed_in q e = (target-MayReach printable signed_in (to_router q) e).0
