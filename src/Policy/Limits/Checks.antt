-- ===== src/Policy/Limits/Checks.antt =====
-- What a rate limit that passes its checks counts: `Problem` and `count` together.
use keera_gateway.Base.{
  true, none, List, [], ◌==◌, string_eq, ◌≡◌, refl, arith, Bool-cases, ◌⊎◌, inl, inr,
}
use keera_gateway.Base.Int.{pos, ◌≤ℤ◌, ◌<ℤ◌, min_ℤ}
use keera_gateway.Policy.Calendar.{period_valid}
use keera_gateway.Policy.Scope.{Scope}
use keera_gateway.Policy.Limits.{
  RateLimit, rate_per, rate_problem, per_minute, max_per_minute, count, quotas,
}

-- What a rate limit puts on a level: a bucket per minute on the month's scope, kept as it was
-- written, or the quotas of a day or month.
pub data IsCounted (r : RateLimit) (month : Scope) : Scope × List Scope → Type 0 where
  by_minute :
      r.requests ≤ℤ max_per_minute
      → r.tokens ≤ℤ max_per_minute
      → IsCounted r month (record month { rpm = r.requests; tpm = r.tokens }, [])
  by_window :
      period_valid (rate_per r) ≡ true
      → IsCounted r month (month, quotas month.type month.id (rate_per r) r.requests r.tokens)

-- What the checks leave of a rate limit.
record IsChecked (r : RateLimit) : Type 0 where
  requests : pos 0 ≤ℤ r.requests
  tokens : pos 0 ≤ℤ r.tokens
  positive : (pos 0 <ℤ r.requests) ⊎ (pos 0 <ℤ r.tokens)
  period :
      (period_valid (rate_per r) ≡ true)
      ⊎ ((r.requests ≤ℤ max_per_minute) × (r.tokens ≤ℤ max_per_minute))

-- The period is the one that `rate_per` takes, or is left out.
period_of :
    (r : RateLimit) → (per_minute r ≡ true) ⊎ (period_valid (rate_per r) ≡ period_valid r.period)
unfolding per_minute rate_per
period_of r = elim (Bool-cases (r.period == "")) [
  | inl empty ↦ inl (rw empty refl)
  | inr named ↦ inr (rw named refl)
]

rate_problem-IsChecked : (r : RateLimit) → rate_problem r ≡ none → IsChecked r
unfolding rate_problem
rate_problem-IsChecked r h = record {
  requests = ground arith;
  tokens = ground arith;
  positive = ground arith;
  period = ground (arith, period_of r);
}

counted : (r : RateLimit) (month : Scope) → IsChecked r → IsCounted r month (count r month)
unfolding count
counted r month c = elim (Bool-cases (period_valid (rate_per r))) [
  | inl window ↦ rw window (by_window window)
  | inr minute ↦ elim c.period [
    | inl window ↦ absurd (ground arith)
    | inr (low, low') ↦
        let e : min_ℤ r.requests max_per_minute ≡ r.requests = ground arith in
        let e' : min_ℤ r.tokens max_per_minute ≡ r.tokens = ground arith in
        rw (minute, e, e') (by_minute low low')
  ]
]

-- A rate limit without a problem has no negative part and a positive one, and it is counted as it
-- was written: the cap on a limit per minute changes nothing that passes the checks, and no period
-- falls through to a limit per minute.
count-IsCounted :
    (r : RateLimit) (month : Scope)
    → rate_problem r ≡ none
    → (pos 0 ≤ℤ r.requests)
      × (pos 0 ≤ℤ r.tokens)
      × ((pos 0 <ℤ r.requests) ⊎ (pos 0 <ℤ r.tokens))
      × IsCounted r month (count r month)
count-IsCounted r month h =
    let c = rate_problem-IsChecked r h in (c.requests, c.tokens, c.positive, counted r month c)
