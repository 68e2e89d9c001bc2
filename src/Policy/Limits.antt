-- ===== src/Policy/Limits.antt =====
-- Limits of one level: `RateLimit`, `Budget`, their checks and scopes (`Per`, `Problem`, `count`,
-- `quotas`) of internal/policy/policy.go and router.go. A problem is named, not worded.
pub mod Checks
use Prim.Native.String.{◌++◌ as join}
use keera_gateway.Base.{
  ℕ, ◌^◌, String, Bool, true, false, Option, none, some, List, [], ◌∷◌, ◌++◌, ◌&&◌, ◌||◌, ◌==◌,
  string_eq, not, if◌then◌else◌,
}
use keera_gateway.Base.Int.{ℤ, pos, leb_ℤ, ltb_ℤ, eqb_ℤ, min_ℤ, max_ℤ}
use keera_gateway.Policy.Calendar.{Period, period_day, period_month, period_minute, period_valid}
use keera_gateway.Policy.Scope.{Scope, ScopeType, Meter, meter_cost, meter_requests, meter_tokens}

pub record RateLimit : Type 0 where
  pub requests : ℤ
  pub tokens : ℤ
  pub period : Period

pub record Budget : Type 0 where
  pub budget_micros : ℤ
  pub period : Period

-- `RateLimit.Per`: empty is a minute
unfoldable pub rate_per : RateLimit → Period
rate_per r = if r.period == "" then period_minute else r.period

-- `Budget.Per`: empty is a month
unfoldable pub budget_per : Budget → Period
budget_per b = if b.period == "" then period_month else b.period

abbrev pub max_per_minute : ℤ
max_per_minute = pos (2 ^ 30)

-- `RateLimit.PerMinute`
unfoldable pub per_minute : RateLimit → Bool
unfolding rate_per
per_minute r = rate_per r == period_minute

pub data LimitProblem : Type 0 where
  bad_period not_positive too_large : LimitProblem

-- `RateLimit.Problem`
unfoldable pub rate_problem : RateLimit → Option LimitProblem
unfolding per_minute period_valid
rate_problem r =
    if not (per_minute r) && not (period_valid r.period)
    then some bad_period
    else if ltb_ℤ r.requests (pos 0)
        || ltb_ℤ r.tokens (pos 0)
        || eqb_ℤ r.requests (pos 0) && eqb_ℤ r.tokens (pos 0)
    then some not_positive
    else if per_minute r && ltb_ℤ max_per_minute (max_ℤ r.requests r.tokens)
    then some too_large
    else none

-- `Budget.Problem`
unfoldable pub budget_problem : Budget → Option LimitProblem
unfolding budget_per period_valid
budget_problem b =
    if not (period_valid (budget_per b))
    then some bad_period
    else if leb_ℤ b.budget_micros (pos 0)
    then some not_positive
    else none

-- A scope with no limit of its own, over a period.
abbrev pub scope_at : ScopeType → String → Period → Scope
scope_at t id p = record {
  type = t;
  id = id;
  rpm = pos 0;
  tpm = pos 0;
  budget_micros = pos 0;
  period = p;
  meter = meter_cost;
  quota = pos 0;
}

quota_scope : ScopeType → String → Period → Meter → ℤ → List Scope
quota_scope t id p meter quota =
    if ltb_ℤ (pos 0) quota
    then record (scope_at t (join id (join "|" meter)) p) { meter = meter; quota = quota } ∷ []
    else []

-- `quotas`
unfoldable pub quotas : ScopeType → String → Period → ℤ → ℤ → List Scope
unfolding quota_scope
quotas t id p requests tokens =
    quota_scope t id p meter_requests requests ++ quota_scope t id p meter_tokens tokens

-- `RateLimit.count`, with the month's scope that it leaves
unfoldable pub count : RateLimit → Scope → Scope × List Scope
unfolding rate_per period_valid quotas
count r month =
    if period_valid (rate_per r)
    then (month, quotas month.type month.id (rate_per r) r.requests r.tokens)
    else (
      record month { rpm = min_ℤ r.requests max_per_minute; tpm = min_ℤ r.tokens max_per_minute },
      [],
    )
