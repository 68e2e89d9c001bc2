-- ===== src/Gateway/Admission.antt =====
-- What internal/gateway/serve.go lets in: `admitted`, after `refuse`, `closeEarly` and `hungUp` of
-- refuse.go, with which a request ends. What the body says, what the filters, the backends and the
-- client do, and the registry's lookups are a record of functions (`Site`). Bodies, headers, logs,
-- metrics and traces are left out, and so are the fields of the usage row that only describe.
pub mod Kept
use keera_gateway.Base.{
  ℕ, ◌+◌, String, Bool, true, false, not, ◌&&◌, ◌||◌, Option, none, some, List, [], ◌∷◌, ◌++◌, ◌==◌,
  string_eq, nat_eq, ltb, leb, length, any, contains, filter, if◌then◌else◌,
}
use keera_gateway.Base.Int.{ℤ, pos, ltb_ℤ}
use keera_gateway.Base.Int64.{add64}
use keera_gateway.Policy.Model.{Model, Tokens, Kind}
use keera_gateway.Policy.Bill.{BillLine, counts_tokens}
use keera_gateway.Policy.Filter.{Filter}
use keera_gateway.Policy.Scope.{Scope, meter_tokens}
use keera_gateway.Policy.Resolve.{Resolved}
use keera_gateway.Policy.Router.{Router}
use keera_gateway.Registry.Budgets.{Budgets, charge, tally, start_request, end_request}
use keera_gateway.Registry.Budgets.Prepaid.{
  Hold, holds, refused as hold_refused, hold_credit, release_credit, charge_credit, charges_paid,
}
use keera_gateway.Ratelimit.Limiter.{Limiter, Requirement, charge_all}
use keera_gateway.Gateway.Serve.{destinations}
use keera_gateway.Gateway.Limits.{OverLimit, check_rates, check_quotas, check_budgets, tpm_bucket}
use keera_gateway.Gateway.Target.{
  Named, to_model, to_router, TargetProblem, Targeted, target_refused, targets, target,
}
use keera_gateway.Gateway.Credit.{
  is_billed, call_filters, filter_outside, credit_hold, output_tokens, answer_cost, credit_sum,
  unreported,
}
use keera_gateway.Gateway.Window.{fits}
use keera_gateway.Gateway.Walk.{
  Call, World, Ending, filtered, Walked, refused, placed, hook_bills, hook_micros, router_filters,
  use_router,
}

-- What came of the attempts: the client left first; no destination gave an answer, and whether the
-- last may have got the request; or an answer of a model, with its status, the
-- status that the client gets, what the backend reports, and the gateway's own count.
pub data Answered : Type 0 where
  left : Answered
  unreachable : Model → Bool → Answered
  answered : Model → (status shown : ℕ) → (used counted : Tokens) → Answered

pub record Site : Type 0 where
  pub world : World
  pub find_router : String → Option Router
  pub find_filter : String → Option Filter
  pub printable : String → Bool
  pub signed_in : Bool
  pub res : Resolved
  pub alias : String
  pub decoded : Bool
  pub received : ℤ
  pub ceilings : List ℤ
  pub native : Call → List Model → Option (List Model)
  pub body_size : Call → ℕ
  pub texts : Call → Option (List String)
  pub prepared : Call → Bool
  pub answer : Call → List Model → Answered
  pub finished_at : ℕ

-- How a request ended.
pub data End : Type 0 where
  malformed unsupported too_long unprepared hung_up : End
  off_target : TargetProblem → End
  charge_due : ℕ → End
  outside : String → End
  over : OverLimit → End
  out_of_credit : (balance held : ℤ) → End
  in_router : Ending → End
  in_filters : Ending → End
  served : (status : ℕ) → (cost : ℤ) → End

-- The call as it stands, and the credit that it holds.
pub record Standing : Type 0 where
  pub call : Call
  pub held : ℤ

abbrev pub Final : Type 0
Final = End × Standing

-- A step of a request: it is over, or goes on.
pub data Progress : Type 0 where
  ends : Final → Progress
  goes : Standing → Progress

module _ (s : Site) where
  -- `record`
  unfoldable pub recorded : Call → List BillLine → Call
  recorded c bills = record c {
    budgets = charge_credit c.budgets s.res.key.org_id (credit_sum bills (pos 0));
  }

  -- `refuse` and `hungUp`, which both come to `closeEarly`
  unfoldable pub closed : End → Standing → Final
  unfolding recorded
  closed why st = (why, record st { call = recorded st.call (hook_bills st.call) })

  -- The last check of `admitted`
  within_budgets : Option OverLimit → Standing → Progress
  within_budgets none st = goes st
  within_budgets (some o) st = ends (closed (over o) st)

  own_subscription : Named → Bool
  own_subscription (to_model m) = m.subscription && length s.res.filters == 0
  own_subscription (to_router p) = false

  pays : Named → Standing → Progress
  pays n st =
      if own_subscription n
      then goes st
      else within_budgets (check_budgets st.call.budgets s.res.scopes s.world.now) st

  credited : Named → Call → Budgets × Hold → Progress
  credited n c (b, holds m) = pays n (record { call = record c { budgets = b }; held = m })
  credited n c (b, hold_refused balance held) = ends (
      closed (out_of_credit balance held)
        (record { call = record c { budgets = b }; held = pos 0 }))

  -- `HoldCredit` of a billed request
  with_credit : Named → Call → Progress
  with_credit n c =
      if is_billed s.world.find s.find_filter s.res n
      then credited n c (
          hold_credit c.budgets s.res.key.org_id (
            credit_hold s.world.find s.find_filter s.res n s.received
              (output_tokens s.world.kind s.ceilings)))
      else pays n (record { call = c; held = pos 0 })

  within_quotas : Named → Call → Option OverLimit → Progress
  within_quotas n c none = with_credit n c
  within_quotas n c (some o) = ends (closed (over o) (record { call = c; held = pos 0 }))

  within_rates : Named → Call → Option OverLimit × Limiter → Progress
  within_rates n c (none, l) =
      let c' : Call = record c { limiter = l } in
      within_quotas n c' (check_quotas c'.budgets s.res.quotas s.world.now)
  within_rates n c (some o, l) =
      ends (closed (over o) (record { call = record c { limiter = l }; held = pos 0 }))

  inside : Named → Call → Option String → Progress
  inside n c none = within_rates n c (check_rates c.limiter s.res.scopes s.world.now)
  inside n c (some f) = ends (closed (outside f) (record { call = c; held = pos 0 }))

  paid : Named → Call → Option ℕ → Progress
  paid n c none =
      inside n c (filter_outside s.world.find s.find_filter s.res (call_filters s.res n))
  paid n c (some since) = ends (closed (charge_due since) (record { call = c; held = pos 0 }))

  -- `admitted`
  unfoldable pub admitted : Named → Call → Progress
  unfolding paid inside within_rates within_quotas with_credit credited pays within_budgets
      own_subscription
  admitted n c = paid n c (charges_paid c.budgets s.res.key.org_id s.world.now)
