-- ===== src/Policy/Resolve/Windows.antt =====
-- The windows that a resolved key's cost is charged to.
use keera_gateway.Base.{
  String, Option, none, some, List, [], ◌∷◌, ◌++◌, ◌==◌, string_eq, ◌≡◌, refl, arith, Bool-cases,
  inl, inr,
}
use keera_gateway.Policy.Calendar.{Period, period_day, period_month}
use keera_gateway.Policy.Scope.{Scope, ScopeType, meter_cost}
use keera_gateway.Policy.Limits.{RateLimit, Budget, budget_per, count, scope_at}
use keera_gateway.Policy.Resolve.{Limits, Resolved, count_all, budget_all, with_day, add_level}

-- A scope of this type and id that counts money over this period.
pub record CountsCost (t : ScopeType) (i : String) (p : Period) (sc : Scope) : Type 0 where
  pub type : sc.type ≡ t
  pub id : sc.id ≡ i
  pub period : sc.period ≡ p
  pub meter : sc.meter ≡ meter_cost

module _ (t : ScopeType) (id : String) where
  count-CountsCost :
      (rl : RateLimit) (month : Scope)
      → CountsCost t id period_month month
      → CountsCost t id period_month (count rl month).0
  unfolding count
  count-CountsCost rl month h = ground arith

  count_all-CountsCost :
      (rls : List RateLimit) (month : Scope) (quotas : List Scope)
      → CountsCost t id period_month month
      → CountsCost t id period_month (count_all rls month quotas).0
  unfolding count_all
  count_all-CountsCost [] month quotas h = h
  count_all-CountsCost (rl ∷ rls) month quotas h =
      count_all-CountsCost rls (count rl month).0 (quotas ++ (count rl month).1)
        (count-CountsCost rl month h)

  -- The day's scope, if there is one.
  abbrev CountsDay : Option Scope → Type 0
  CountsDay none = Unit
  CountsDay (some day) = CountsCost t id period_day day

  budget_all-CountsCost :
      (bs : List Budget) (month : Scope) (day : Option Scope)
      → CountsCost t id period_month month
      → CountsDay day
      → CountsCost t id period_month (budget_all t id bs month day).0
        × CountsDay (budget_all t id bs month day).1
  unfolding budget_all
  budget_all-CountsCost [] month day h k = (h, k)
  budget_all-CountsCost (b ∷ bs) month day h k = elim (Bool-cases (budget_per b == period_day)) [
    | inl daily ↦ rw daily (
        budget_all-CountsCost bs month
          (some (record (scope_at t id period_day) { budget_micros = b.budget_micros })) h
          (record { type = refl; id = refl; period = refl; meter = refl }))
    | inr monthly ↦ rw monthly (
        budget_all-CountsCost bs (record month { budget_micros = b.budget_micros }) day
          (record { type = h.type; id = h.id; period = h.period; meter = h.meter }) k)
  ]

  -- The scopes of a level: its month, then its day if it has a daily budget.
  pub data IsLevelScopes : List Scope → Type 0 where
    month_only : {m : Scope} → CountsCost t id period_month m → IsLevelScopes (m ∷ [])
    month_and_day :
        {m d : Scope}
        → CountsCost t id period_month m
        → CountsCost t id period_day d
        → IsLevelScopes (m ∷ d ∷ [])

  with_day-IsLevelScopes :
      (q : Scope × Option Scope)
      → CountsCost t id period_month q.0
      → CountsDay q.1
      → IsLevelScopes (with_day q)
  with_day-IsLevelScopes (m, none) h k = month_only h
  with_day-IsLevelScopes (m, some d) h k = month_and_day h k

  -- What a level adds to the scopes.
  pub scopes-add_level :
      (r : Resolved) (lim : Option Limits)
      → (l : List Scope) × ((add_level r t id lim).scopes ≡ r.scopes ++ l) × IsLevelScopes l
  unfolding add_level
  scopes-add_level r none =
      (_, refl, month_only (record { type = refl; id = refl; period = refl; meter = refl }))
  scopes-add_level r (some lim) =
      let counted = count_all lim.rate_limits (scope_at t id period_month) r.quotas in
      let c =
        count_all-CountsCost lim.rate_limits (scope_at t id period_month) r.quotas
          (record { type = refl; id = refl; period = refl; meter = refl }) in
      let q = budget_all-CountsCost lim.budgets counted.0 none c tt in
      (_, refl, with_day-IsLevelScopes (budget_all t id lim.budgets counted.0 none) q.0 q.1)
