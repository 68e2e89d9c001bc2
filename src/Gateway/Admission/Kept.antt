-- ===== src/Gateway/Admission/Kept.antt =====
-- What a request through internal/gateway/serve.go keeps until it is let in or refused: a property of
-- the credit it holds, of the budgets and of the scopes it counts on, if each change keeps it.
use keera_gateway.Base.{
  ℕ, String, Option, none, some, List, string_eq, nat_eq, Bool-cases, inl, inr,
}
use keera_gateway.Base.Int.{ℤ, pos}
use keera_gateway.Policy.Scope.{Scope, Meter}
use keera_gateway.Registry.Budgets.{Budgets, tally}
use keera_gateway.Registry.Budgets.Prepaid.{
  Hold, holds, refused as hold_refused, hold_credit, charge_credit,
}
use keera_gateway.Ratelimit.Limiter.{Limiter}
use keera_gateway.Gateway.Limits.{OverLimit, check_rates, check_budgets}
use keera_gateway.Gateway.Target.{Named}
use keera_gateway.Gateway.Credit.{is_billed, credit_hold, output_tokens, credit_sum}
use keera_gateway.Gateway.Walk.{Call, hook_bills}
use keera_gateway.Gateway.Walk.Kept.{IsKept}
use keera_gateway.Gateway.Admission.{
  Site, Standing, Final, Progress, ends, goes, End, over, outside, charge_due, recorded, closed,
  within_budgets, own_subscription, pays, credited, with_credit, within_quotas, within_rates,
  inside, paid, admitted,
}

-- The credit that the request holds for what it names.
abbrev pub may_take : Site → Named → ℤ
may_take s n =
    credit_hold s.world.find s.find_filter s.res n s.received
      (output_tokens s.world.kind s.ceilings)

-- A hold, and the budgets after it.
abbrev pub Taken : (ℤ → Budgets → List Scope → Type 0) → List Scope → Budgets × Hold → Type 0
Taken G scopes (b, holds m) = G m b scopes
Taken G scopes (b, hold_refused balance held) = G (pos 0) b scopes

-- A property of what a request holds, of the budgets, and of the scopes that it counts on: what
-- `serve` does up to what it defers keeps it.
pub record IsKeptHolding (now : ℕ) (org : String) (micros : ℤ)
    (G : ℤ → Budgets → List Scope → Type 0) (Plain : Scope → Type 0) : Type 0 where
  pub walks : (held : ℤ) → IsKept now (G held) Plain
  pub tallies :
      (held : ℤ) (b : Budgets) (scopes by : List Scope) (meter : Meter) (n : ℤ)
      → G held b scopes
      → G held (tally b by meter n now) scopes
  pub pays_bills :
      (held : ℤ) (b : Budgets) (scopes : List Scope) (n : ℤ)
      → G held b scopes
      → G held (charge_credit b org n) scopes
  pub takes :
      (b : Budgets) (scopes : List Scope)
      → G (pos 0) b scopes
      → Taken G scopes (hold_credit b org micros)

module _ (s : Site) (n : Named) (G : ℤ → Budgets → List Scope → Type 0) (Plain : Scope → Type 0)
    (kept : IsKeptHolding s.world.now s.res.key.org_id (may_take s n) G Plain) where
  abbrev pub Good : Standing → Type 0
  Good st = G st.held st.call.budgets st.call.scopes

  abbrev pub Free : Call → Type 0
  Free c = G (pos 0) c.budgets c.scopes

  abbrev pub GoodFinal : Final → Type 0
  GoodFinal (e, st) = Good st

  abbrev pub GoodSoFar : Progress → Type 0
  GoodSoFar (ends f) = GoodFinal f
  GoodSoFar (goes st) = Good st

  pub closed-Good : (why : End) (st : Standing) → Good st → GoodFinal (closed s why st)
  unfolding closed recorded
  closed-Good why st g =
      kept.pays_bills st.held st.call.budgets st.call.scopes
        (credit_sum (hook_bills st.call) (pos 0)) g

  pays-Good : (st : Standing) → Good st → GoodSoFar (pays s n st)
  unfolding pays within_budgets
  pays-Good st g = elim (Bool-cases (own_subscription s n)) [
    | inl own ↦ rw own g
    | inr other ↦ rw other (checked (check_budgets st.call.budgets s.res.scopes s.world.now))
  ]
    where
      checked : (o : Option OverLimit) → GoodSoFar (within_budgets s o st)
      checked none = g
      checked (some o) = closed-Good (over o) st g

  credited-Good :
      (c : Call) (b : Budgets) (hold : Hold)
      → Taken G c.scopes (b, hold)
      → GoodSoFar (credited s n c (b, hold))
  unfolding credited
  credited-Good c b (holds m) g = pays-Good _ g
  credited-Good c b (hold_refused balance held) g = closed-Good _ _ g

  with_credit-Good : (c : Call) → Free c → GoodSoFar (with_credit s n c)
  unfolding with_credit
  with_credit-Good c g = elim (Bool-cases (is_billed s.world.find s.find_filter s.res n)) [
    | inr free ↦ rw free (pays-Good _ g)
    | inl billed ↦ rw billed (
        let r = hold_credit c.budgets s.res.key.org_id (may_take s n) in
        credited-Good c r.0 r.1 (kept.takes c.budgets c.scopes g))
  ]

  within_quotas-Good :
      (c : Call) (o : Option OverLimit) → Free c → GoodSoFar (within_quotas s n c o)
  unfolding within_quotas
  within_quotas-Good c none g = with_credit-Good c g
  within_quotas-Good c (some o) g = closed-Good (over o) _ g

  within_rates-Good :
      (c : Call) (o : Option OverLimit) (l : Limiter)
      → Free c
      → GoodSoFar (within_rates s n c (o, l))
  unfolding within_rates
  within_rates-Good c none l g = within_quotas-Good _ _ g
  within_rates-Good c (some o) l g = closed-Good (over o) _ g

  inside-Good : (c : Call) (o : Option String) → Free c → GoodSoFar (inside s n c o)
  unfolding inside
  inside-Good c none g =
      let r = check_rates c.limiter s.res.scopes s.world.now in within_rates-Good c r.0 r.1 g
  inside-Good c (some f) g = closed-Good (outside f) _ g

  paid-Good : (c : Call) (o : Option ℕ) → Free c → GoodSoFar (paid s n c o)
  unfolding paid
  paid-Good c none g = inside-Good c _ g
  paid-Good c (some since) g = closed-Good (charge_due since) _ g

  pub admitted-Good : (c : Call) → Free c → GoodSoFar (admitted s n c)
  unfolding admitted
  admitted-Good c g = paid-Good c _ g
