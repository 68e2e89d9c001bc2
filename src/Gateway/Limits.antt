-- ===== src/Gateway/Limits.antt =====
-- The limits of a request's scopes, as internal/gateway/refuse.go and `checkBudgets` of serve.go check
-- them: what a check finds over its limit is named, not worded. The limiter is the one in memory.
use Prim.Native.String.{◌++◌ as join}
use keera_gateway.Base.{
  ℕ, zero, suc, ◌-◌, String, true, false, Option, none, some, List, [], ◌∷◌, if◌then◌else◌,
}
use keera_gateway.Base.Int.{ℤ, pos, negsuc, leb_ℤ, ltb_ℤ, max_ℤ}
use keera_gateway.Base.Int64.{sub64}
use keera_gateway.Policy.Calendar.{next}
use keera_gateway.Policy.Scope.{Scope}
use keera_gateway.Registry.Budgets.{Budgets, BudgetExceeded, spent, allow}
use keera_gateway.Ratelimit.Limiter.{Limiter, Requirement, admit, retry}

-- `bucketKey`
unfoldable pub bucket_key : Scope → String → String
bucket_key sc limit = join sc.type (join ":" (join sc.id (join "|" limit)))

-- `tpmBucket`
unfoldable pub tpm_bucket : Scope → Requirement
unfolding bucket_key
tpm_bucket sc = record { key = bucket_key sc "tpm"; per_minute = sc.tpm; take = false }

pub data LimitUnit : Type 0 where
  requests tokens : LimitUnit

pub record RateCheck : Type 0 where
  pub scope : Scope
  pub limit : ℤ
  pub unit : LimitUnit

unfoldable pub requirements : List Scope → List Requirement
unfolding tpm_bucket bucket_key
requirements [] = []
requirements (sc ∷ scopes) =
    record { key = bucket_key sc "rpm"; per_minute = sc.rpm; take = true }
    ∷ tpm_bucket sc
    ∷ requirements scopes

rate_checks : List Scope → List RateCheck
rate_checks [] = []
rate_checks (sc ∷ scopes) =
    record { scope = sc; limit = sc.rpm; unit = requests }
    ∷ record { scope = sc; limit = sc.tpm; unit = tokens }
    ∷ rate_checks scopes

-- A limit that a request is over; the wait of a rate's refusal is left out.
pub data OverLimit : Type 0 where
  rate : RateCheck → OverLimit
  quota : Scope → ℕ → OverLimit
  budget : BudgetExceeded → OverLimit

-- `checks[i]` and `reqs[i]`
nth_check : List RateCheck → List Requirement → ℕ → Option (RateCheck × Requirement)
nth_check [] reqs i = none
nth_check (c ∷ checks) [] i = none
nth_check (c ∷ checks) (r ∷ reqs) zero = some (c, r)
nth_check (c ∷ checks) (r ∷ reqs) (suc i) = nth_check checks reqs i

over_rate : Limiter → Option (RateCheck × Requirement) → ℕ → Option OverLimit × Limiter
over_rate l none now = (none, l)
over_rate l (some (c, req)) now = (some (rate c), retry l req.key c.limit now)

after_admit : List Scope → ℕ → ℤ × Limiter → Option OverLimit × Limiter
after_admit scopes now (negsuc i, l) = (none, l)
after_admit scopes now (pos i, l) =
    over_rate l (nth_check (rate_checks scopes) (requirements scopes) i) now

-- `checkRates`
unfoldable pub check_rates : Limiter → List Scope → ℕ → Option OverLimit × Limiter
unfolding requirements after_admit over_rate nth_check rate_checks
check_rates l scopes now = after_admit scopes now (admit l (requirements scopes) now)

-- `checkQuotas`
unfoldable pub check_quotas : Budgets → List Scope → ℕ → Option OverLimit
check_quotas b [] now = none
check_quotas b (sc ∷ scopes) now =
    let rest = check_quotas b scopes now in
    if leb_ℤ sc.quota (pos 0)
    then rest
    else if ltb_ℤ (spent b sc.type sc.id sc.period now) sc.quota
    then rest
    else some (quota sc (next sc.period now - now))

as_over : Option BudgetExceeded → Option OverLimit
as_over none = none
as_over (some e) = some (budget e)

-- `checkBudgets`
unfoldable pub check_budgets : Budgets → List Scope → ℕ → Option OverLimit
unfolding as_over
check_budgets b scopes now = as_over (allow b scopes now)

tighter : Scope → Option ℤ → Option (Scope × ℤ) → Option (Scope × ℤ)
tighter sc none best = best
tighter sc (some n) none = some (sc, n)
tighter sc (some n) (some (b, least)) = if ltb_ℤ n least then some (sc, n) else some (b, least)

-- `tightest`, with the best so far
unfoldable pub tightest : (Scope → Option ℤ) → List Scope → Option (Scope × ℤ) → Option (Scope × ℤ)
unfolding tighter
tightest left [] best = best
tightest left (sc ∷ scopes) best = tightest left scopes (tighter sc (left sc) best)

-- What `budgetHeaders` reports: the scope with the least left of its budget
unfoldable pub tightest_budget : Budgets → List Scope → ℕ → Option (Scope × ℤ)
unfolding tightest
tightest_budget b scopes now =
    tightest
      (λ sc.
        if leb_ℤ sc.budget_micros (pos 0)
        then none
        else some (max_ℤ (sub64 sc.budget_micros (spent b sc.type sc.id sc.period now)) (pos 0)))
      scopes none
