-- ===== src/Gateway/Target.antt =====
-- What a request's 'model' field names: `target`, `aliasRefusal` and `lookupModel` of
-- internal/gateway/serve.go, `callable` of models.go and `billedModel` of credit.go. Refusals are
-- named, not worded. `find` is `findModel`, which adds the other names of a subscription's models
-- to the registry's; `printable` is the function of serve.go.
pub mod Reach
use keera_gateway.Base.{
  ℕ, String, Bool, true, false, not, ◌&&◌, ◌||◌, Option, none, some, List, [], ◌∷◌, ◌==◌, string_eq,
  nat_eq, ltb, length, bytes, if◌then◌else◌,
}
use keera_gateway.Policy.Model.{Model, Kind, kind_chat, kind_decision}
use keera_gateway.Policy.Resolve.{Resolved, may_use}
use keera_gateway.Policy.Router.{Router, may_call_router}

-- `named`
pub data Named : Type 0 where
  to_model : Model → Named
  to_router : Router → Named

pub data TargetProblem : Type 0 where
  missing_model not_a_name model_not_found org_limited no_backend subscription_refused :
      TargetProblem

-- What a lookup comes to, or why it is refused.
pub data Targeted : Type 0 where
  target_refused : TargetProblem → Targeted
  targets : Named → Targeted

abbrev pub max_alias_bytes : ℕ
max_alias_bytes = 128

-- `aliasRefusal`
unfoldable pub alias_problem : (String → Bool) → String → Option TargetProblem
alias_problem printable alias =
    if alias == ""
    then some missing_model
    else if ltb max_alias_bytes (length (bytes alias))
    then some not_a_name
    else if not (printable alias)
    then some not_a_name
    else none

module _ (find : String → Option Model) (find_router : String → Option Router) where
  model_callable : Resolved → Kind → Model → Option Named
  model_callable res kind m =
      if m.enabled
        && not (m.kind == kind_decision)
        && (kind == "" || m.kind == kind)
        && may_use res m
      then some (to_model m)
      else none

  router_callable : Resolved → Option Router → Option Named
  router_callable res none = none
  router_callable res (some p) = if may_call_router res p find then some (to_router p) else none

  found_callable : Resolved → String → Kind → Option Model → Option Named
  found_callable res alias kind (some m) = model_callable res kind m
  found_callable res alias kind none =
      if not (kind == "") && not (kind == kind_chat)
      then none
      else router_callable res (find_router alias)

  -- `callable`
  unfoldable pub callable : Resolved → String → Kind → Option Named
  unfolding found_callable model_callable router_callable
  callable res alias kind = if alias == "" then none else found_callable res alias kind (find alias)

  looked_up : Option Named → Targeted
  looked_up none = target_refused model_not_found
  looked_up (some (to_model m)) =
      if m.locked then target_refused org_limited else targets (to_model m)
  looked_up (some (to_router p)) = targets (to_router p)

  -- `lookupModel`
  unfoldable pub lookup_model : Resolved → String → Kind → Targeted
  unfolding looked_up
  lookup_model res alias kind = looked_up (callable res alias kind)

  -- `target` after the lookup; `signed_in` says that `subscriptionRefusal` lets the call pass
  ready : Bool → Targeted → Targeted
  ready signed_in (target_refused why) = target_refused why
  ready signed_in (targets (to_router p)) = targets (to_router p)
  ready signed_in (targets (to_model m)) =
      if length m.backends == 0
      then target_refused no_backend
      else if m.subscription && not signed_in
      then target_refused subscription_refused
      else targets (to_model m)

  named_well : Option TargetProblem → Targeted → Targeted
  named_well (some why) t = target_refused why
  named_well none t = t

  -- `target`
  unfoldable pub target : (String → Bool) → Bool → Resolved → String → Kind → Targeted
  unfolding named_well ready lookup_model alias_problem
  target printable signed_in res alias kind =
      named_well (alias_problem printable alias) (ready signed_in (lookup_model res alias kind))
