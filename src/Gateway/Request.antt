-- ===== src/Gateway/Request.antt =====
-- One request after its sign-in: `serve`, `admit`, `useFilters`, `answer` and `finish` of
-- internal/gateway/serve.go, as far as they decide, charge and count.
pub mod Kept
pub mod Holding
pub mod Held
pub mod Counts
use keera_gateway.Base.{
  ℕ, ◌+◌, String, Bool, true, false, not, ◌&&◌, ◌||◌, Option, none, some, List, [], ◌∷◌, ◌++◌, ◌==◌,
  string_eq, nat_eq, ltb, leb, length, any, contains, filter, if◌then◌else◌,
}
use keera_gateway.Base.Int.{ℤ, pos, ltb_ℤ}
use keera_gateway.Base.Int64.{add64}
use keera_gateway.Policy.Model.{Model, Tokens, Kind}
use keera_gateway.Policy.Bill.{BillLine, counts_tokens}
use keera_gateway.Policy.Filter.{Filter}
use keera_gateway.Policy.Scope.{Scope, meter_tokens}
use keera_gateway.Policy.Resolve.{Resolved}
use keera_gateway.Policy.Router.{Router}
use keera_gateway.Registry.Budgets.{Budgets, charge, tally, start_request, end_request}
use keera_gateway.Registry.Budgets.Prepaid.{
  Hold, holds, refused as hold_refused, hold_credit, release_credit, charge_credit, charges_paid,
}
use keera_gateway.Ratelimit.Limiter.{Limiter, Requirement, charge_all}
use keera_gateway.Gateway.Serve.{destinations}
use keera_gateway.Gateway.Limits.{OverLimit, check_rates, check_quotas, check_budgets, tpm_bucket}
use keera_gateway.Gateway.Target.{
  Named, to_model, to_router, TargetProblem, Targeted, target_refused, targets, target,
}
use keera_gateway.Gateway.Credit.{
  is_billed, call_filters, filter_outside, credit_hold, output_tokens, answer_cost, credit_sum,
  unreported,
}
use keera_gateway.Gateway.Window.{fits}
use keera_gateway.Gateway.Walk.{
  Call, World, Ending, filtered, Walked, refused, placed, hook_bills, hook_micros, router_filters,
  use_router,
}
use keera_gateway.Gateway.Admission.{
  Site, Standing, Final, Progress, ends, goes, End, malformed, unsupported, too_long, unprepared,
  hung_up, off_target, over, in_router, in_filters, served, Answered, left, unreachable, answered,
  recorded, closed, admitted,
}

tpm_buckets : List Scope → List Requirement
tpm_buckets [] = []
tpm_buckets (sc ∷ scopes) = tpm_bucket sc ∷ tpm_buckets scopes

abbrev no_tokens : Tokens
no_tokens = record {
  input = pos 0;
  cached_input = pos 0;
  cache_write = pos 0;
  cache_write_hour = pos 0;
  output = pos 0;
}

module _ (s : Site) where
  -- What the next step does, unless the request is over
  abbrev pub then_do : Progress → (Standing → Progress) → Progress
  then_do (ends f) on = ends f
  then_do (goes st) on = on st

  -- `admit` after `admitted`: the request counts from here on
  counted_in : Standing → Progress
  counted_in st = goes (record st {
    call = record st.call {
      scopes = st.call.scopes ++ s.res.quotas;
      budgets = start_request st.call.budgets s.res.quotas s.world.now;
    };
  })

  routed : ℤ → Walked → Progress
  routed held (refused e c) = ends (closed s (in_router e) (record { call = c; held = held }))
  routed held (placed c) = goes (record { call = c; held = held })

  -- The router that the client named, if it named one
  chosen : Named → Standing → Progress
  chosen (to_model m) st =
      goes (record st { call = record st.call { alias = m.alias; model = some m } })
  chosen (to_router p) st = routed st.held (use_router s.world p st.call)

  models_to_try : Call → List Model
  models_to_try c = elim c.model [ none ↦ [] | some m ↦ destinations s.world.find m c.chain ]

  -- `useFilters`: the key's filters that no step of the router ran
  unfiltered : List String → List String → List String
  unfiltered ran [] = []
  unfiltered ran (a ∷ aliases) =
      let more = unfiltered ran aliases in if contains ran a then more else a ∷ more

  filters_done : ℤ → Walked → Progress
  filters_done held (refused e c) =
      ends (closed s (in_filters e) (record { call = c; held = held }))
  filters_done held (placed c) = goes (record { call = c; held = held })

  use_filters : Standing → Progress
  use_filters st =
      filters_done st.held
        (router_filters s.world (unfiltered st.call.ran s.res.filters) st.call placed)

  -- The first half of `finish`: what an answer of so many tokens counts on the call's scopes
  accounted : (tokens cost : ℤ) → Call → Call
  unfolding tpm_buckets
  accounted tokens cost c =
      let b = charge c.budgets c.scopes cost s.world.now in
      if ltb_ℤ (pos 0) tokens
      then record c {
        limiter = charge_all c.limiter (tpm_buckets c.scopes) tokens s.finished_at;
        budgets = tally b c.scopes meter_tokens tokens s.world.now;
      }
      else record c { budgets = b }

  -- `finish`: the answering model's cost, its tokens and its bill
  finish_call : Model → ℕ → Tokens → Tokens → Standing → Final
  unfolding recorded accounted
  finish_call m status used counted st =
      let spent = answer_cost m used counted in
      let cost = if m.subscription then pos 0 else spent.0 in
      (
        served status (add64 cost (hook_micros st.call)),
        record st {
          call =
              recorded s (accounted (add64 used.input used.output) cost st.call)
                (hook_bills st.call ++ spent.1);
        },
      )

  -- `answer`, with `billUnreported`
  unfoldable pub answer_with : Standing → Answered → Final
  unfolding finish_call
  answer_with st left = closed s hung_up st
  answer_with st (unreachable m may_have_got_it) =
      let ceiling = output_tokens s.world.kind s.ceilings in
      let used =
        if may_have_got_it
        then unreported m.platform_key no_tokens s.received ceiling
        else no_tokens in
      finish_call m 502 used no_tokens st
  answer_with st (answered m status shown used counted) =
      let ceiling = output_tokens s.world.kind s.ceilings in
      finish_call m shown
        (if ltb status 400 then unreported m.platform_key used s.received ceiling else used)
        (if counts_tokens m && ltb shown 300 then counted else no_tokens) st

  then_end : Progress → (Standing → Final) → Final
  then_end (ends f) on = f
  then_end (goes st) on = on st

  -- `useFilters`, `prepare` and `answer`, with the models to try
  filtered_answer : List Model → Standing → Final
  filtered_answer chain st = then_end (use_filters st) (λ st'.
      if not (s.prepared st'.call)
      then closed s unprepared st'
      else answer_with st' (s.answer st'.call chain))

  forwarded_to : Option (List Model) → Standing → Final
  forwarded_to none st = closed s unsupported st
  forwarded_to (some chain) st =
      if not (fits s.world.kind chain (s.body_size st.call) (s.texts st.call))
      then closed s too_long st
      else filtered_answer chain st

  -- From `admit` on
  unfoldable pub from_admit : Named → Call → Final
  unfolding counted_in chosen routed models_to_try use_filters filters_done unfiltered then_end
      filtered_answer forwarded_to
  from_admit n c =
      then_end (then_do (admitted s n c) (λ st. then_do (counted_in st) (chosen n)))
        (λ st. forwarded_to (s.native st.call (models_to_try st.call)) st)

  -- What `serve` defers: `EndRequest` at the time of the admission, then `ReleaseCredit`
  unfoldable pub finally : ℕ → Final → End × Call
  finally now (e, st) = (
    e,
    record st.call {
      budgets =
          release_credit (end_request st.call.budgets st.call.scopes now) s.res.key.org_id st.held;
    },
  )

  targeted : Call → Targeted → End × Call
  targeted c (target_refused why) =
      finally 0 (closed s (off_target why) (record { call = c; held = pos 0 }))
  targeted c (targets n) = finally s.world.now (from_admit n c)

  -- `serve`, from a call as it begins: with the scopes of its key
  unfoldable pub serve : Call → End × Call
  unfolding targeted finally
  serve c =
      if not s.decoded
      then finally 0 (closed s malformed (record { call = c; held = pos 0 }))
      else targeted c
          (target s.world.find s.find_router s.printable s.signed_in s.res s.alias s.world.kind)
