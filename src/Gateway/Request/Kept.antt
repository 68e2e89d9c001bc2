-- ===== src/Gateway/Request/Kept.antt =====
-- What a request through internal/gateway/serve.go keeps from there until what `serve` defers.
use keera_gateway.Base.{
  ℕ, Option, none, some, List, ◌++◌, string_eq, nat_eq, if◌then◌else◌, All, Bool-cases, inl, inr,
}
use keera_gateway.Base.Int.{ℤ, pos, ltb_ℤ}
use keera_gateway.Base.Int64.{add64}
use keera_gateway.Policy.Model.{Model, Tokens}
use keera_gateway.Policy.Scope.{Scope, meter_tokens}
use keera_gateway.Policy.Router.{steps}
use keera_gateway.Registry.Budgets.{Budgets, charge}
use keera_gateway.Gateway.Target.{Named, to_model, to_router}
use keera_gateway.Gateway.Credit.{answer_cost, credit_sum}
use keera_gateway.Gateway.Window.{fits}
use keera_gateway.Gateway.Walk.{Call, Walked, refused, placed, hook_bills}
use keera_gateway.Gateway.Walk.Kept.{Done, HasPlainSteps, router_filters-kept, use_router-kept}
use keera_gateway.Gateway.Admission.{
  Site, Standing, Final, Progress, ends, goes, hung_up, Answered, left, unreachable, answered,
  recorded,
}
use keera_gateway.Gateway.Admission.Kept.{
  IsKeptHolding, may_take, Good, Free, GoodFinal, GoodSoFar, closed-Good, admitted-Good,
}
use keera_gateway.Gateway.Request.{
  counted_in, routed, chosen, accounted, filters_done, use_filters, finish_call, answer_with,
  filtered_answer, forwarded_to, from_admit, then_do, then_end, no_tokens,
}

-- The scopes of the limits that a request of this name may enter.
abbrev pub IsPlain : (Scope → Type 0) → Named → Type 0
IsPlain Plain (to_model m) = Unit
IsPlain Plain (to_router q) = HasPlainSteps Plain q (steps q.start)

module _ (s : Site) (n : Named) (G : ℤ → Budgets → List Scope → Type 0) (Plain : Scope → Type 0)
    (kept : IsKeptHolding s.world.now s.res.key.org_id (may_take s n) G Plain) where
  then_do-Good :
      (r : Progress) (on : Standing → Progress)
      → GoodSoFar s n G Plain kept r
      → ((st : Standing) → Good s n G Plain kept st → GoodSoFar s n G Plain kept (on st))
      → GoodSoFar s n G Plain kept (then_do s r on)
  then_do-Good (ends f) on g h = g
  then_do-Good (goes st) on g h = h st g

  then_end-Good :
      (r : Progress) (on : Standing → Final)
      → GoodSoFar s n G Plain kept r
      → ((st : Standing) → Good s n G Plain kept st → GoodFinal s n G Plain kept (on st))
      → GoodFinal s n G Plain kept (then_end s r on)
  unfolding then_end
  then_end-Good (ends f) on g h = g
  then_end-Good (goes st) on g h = h st g

  counted_in-Good :
      (st : Standing)
      → All Plain s.res.quotas
      → Good s n G Plain kept st
      → GoodSoFar s n G Plain kept (counted_in s st)
  unfolding counted_in
  counted_in-Good st plain g =
      (kept.walks st.held).starts st.call.budgets st.call.scopes s.res.quotas plain g

  routed-Good :
      (held : ℤ) (r : Walked)
      → Done s.world (G held) Plain (kept.walks held) r
      → GoodSoFar s n G Plain kept (routed s held r)
  unfolding routed
  routed-Good held (refused e c) g = closed-Good s n G Plain kept _ _ g
  routed-Good held (placed c) g = g

  chosen-Good :
      (n' : Named) (st : Standing)
      → IsPlain Plain n'
      → Good s n G Plain kept st
      → GoodSoFar s n G Plain kept (chosen s n' st)
  unfolding chosen
  chosen-Good (to_model m) st plain g = g
  chosen-Good (to_router q) st plain g =
      routed-Good st.held _
        (use_router-kept s.world (G st.held) Plain (kept.walks st.held) q st.call plain g)

  use_filters-Good :
      (st : Standing) → Good s n G Plain kept st → GoodSoFar s n G Plain kept (use_filters s st)
  unfolding use_filters filters_done
  use_filters-Good st g = done _ (
      router_filters-kept s.world (G st.held) Plain (kept.walks st.held) _ st.call placed
        (λ c g'. g') g)
    where
      done :
          (r : Walked)
          → Done s.world (G st.held) Plain (kept.walks st.held) r
          → GoodSoFar s n G Plain kept (filters_done s st.held r)
      done (refused e c) g' = closed-Good s n G Plain kept _ _ g'
      done (placed c) g' = g'

  accounted-Good :
      (tokens cost : ℤ) (st : Standing)
      → Good s n G Plain kept st
      → Good s n G Plain kept (record st { call = accounted s tokens cost st.call })
  unfolding accounted
  accounted-Good tokens cost st g =
      let c = st.call in
      let paid' = (kept.walks st.held).charges c.budgets c.scopes c.scopes cost g in
      elim (Bool-cases (ltb_ℤ (pos 0) tokens)) [
        | inl some' ↦ rw some' (
            kept.tallies st.held (charge c.budgets c.scopes cost s.world.now) c.scopes c.scopes
              meter_tokens tokens paid')
        | inr none' ↦ rw none' paid'
      ]

  finish_call-Good :
      (m : Model) (status : ℕ) (used counted : Tokens) (st : Standing)
      → Good s n G Plain kept st
      → GoodFinal s n G Plain kept (finish_call s m status used counted st)
  unfolding finish_call recorded
  finish_call-Good m status used counted st g =
      let cost = if m.subscription then pos 0 else (answer_cost m used counted).0 in
      let tokens = add64 used.input used.output in
      let c = accounted s tokens cost st.call in
      kept.pays_bills st.held c.budgets c.scopes
        (credit_sum (hook_bills st.call ++ (answer_cost m used counted).1) (pos 0))
        (accounted-Good tokens cost st g)

  answer_with-Good :
      (st : Standing) (a : Answered)
      → Good s n G Plain kept st
      → GoodFinal s n G Plain kept (answer_with s st a)
  unfolding answer_with
  answer_with-Good st left g = closed-Good s n G Plain kept hung_up st g
  answer_with-Good st (unreachable m may_have_got_it) g = finish_call-Good m 502 _ no_tokens st g
  answer_with-Good st (answered m status shown used counted) g = finish_call-Good m shown _ _ st g

  filtered_answer-Good :
      (chain : List Model) (st : Standing)
      → Good s n G Plain kept st
      → GoodFinal s n G Plain kept (filtered_answer s chain st)
  unfolding filtered_answer
  filtered_answer-Good chain st g = then_end-Good _ _ (use_filters-Good st g) (λ st' g'.
      elim (Bool-cases (s.prepared st'.call)) [
        | inl ready ↦ rw ready (answer_with-Good st' (s.answer st'.call chain) g')
        | inr broken ↦ rw broken (closed-Good s n G Plain kept _ st' g')
      ])

  forwarded_to-Good :
      (o : Option (List Model)) (st : Standing)
      → Good s n G Plain kept st
      → GoodFinal s n G Plain kept (forwarded_to s o st)
  unfolding forwarded_to
  forwarded_to-Good none st g = closed-Good s n G Plain kept _ st g
  forwarded_to-Good (some chain) st g =
      elim (Bool-cases (fits s.world.kind chain (s.body_size st.call) (s.texts st.call))) [
        | inl fit ↦ rw fit (filtered_answer-Good chain st g)
        | inr long ↦ rw long (closed-Good s n G Plain kept _ st g)
      ]

  pub from_admit-Good :
      (c : Call)
      → All Plain s.res.quotas
      → IsPlain Plain n
      → Free s n G Plain kept c
      → GoodFinal s n G Plain kept (from_admit s n c)
  unfolding from_admit
  from_admit-Good c quotas plain g =
      then_end-Good _ _
        (then_do-Good _ _ (admitted-Good s n G Plain kept c g) (λ st g'.
          then_do-Good (counted_in s st) (chosen s n) (counted_in-Good st quotas g')
            (λ st' g''. chosen-Good n st' plain g'')))
        (λ st g'. forwarded_to-Good _ st g')
