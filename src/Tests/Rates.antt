-- ===== src/Tests/Rates.antt =====
-- Requests against token buckets.
use keera_gateway.Base.{
  ℕ, ◌+◌, ◌-◌, ◌*◌, ◌≤◌, true, false, List, [], ◌∷◌, String, ◌≡◌, ◌⊎◌, refl, arith, All,
}
use keera_gateway.Base.Int.{ℤ, pos, negsuc}
use keera_gateway.Ratelimit.Limiter.{Limiter, Requirement, token, admit, allow}
use keera_gateway.Ratelimit.Limiter.Admit.{
  Limited, Satisfied, FirstShort, found, less, units, admit-FirstShort, found-admit,
}
use keera_gateway.Ratelimit.Limiter.Kept.{AllKept, fresh, later, allowed, admitted, Reaches-AllKept}
use keera_gateway.Ratelimit.Limiter.Rate.{Call, granted, granted-le-rate}

abbrev two_a_minute : String → ℤ
two_a_minute k = pos 2

abbrev one_request : List Requirement
one_request =
    record { key = "org:o|rpm"; per_minute = pos 2; take = true }
    ∷ record { key = "org:o|tpm"; per_minute = pos 2; take = false }
    ∷ []

both : Limited two_a_minute one_request
both = (refl, (refl, tt))

admit-FirstShort_example :
    ((admit [] one_request 5).0 ≡ negsuc 0 × All (Satisfied (found two_a_minute 5 [])) one_request)
    ⊎ ((i : ℕ) × ((admit [] one_request 5).0 ≡ pos i)
        × FirstShort (found two_a_minute 5 []) one_request i)
admit-FirstShort_example = admit-FirstShort two_a_minute 5 one_request [] both

found-admit_example :
    found two_a_minute 5 (admit [] one_request 5).1 "org:o|rpm"
    ≡ less
        (units "org:o|rpm" one_request (admit [] one_request 5).0)
        (found two_a_minute 5 [] "org:o|rpm")
found-admit_example = found-admit two_a_minute 5 one_request [] "org:o|rpm" both

abbrev three_calls : List Call
three_calls = (5, one_request) ∷ (6, one_request) ∷ (30_000_000_007, one_request) ∷ []

-- The limiter after one request.
abbrev used_once : Limiter
used_once = (admit [] one_request 4).1

granted-le-rate_example :
    token * granted "org:o|rpm" used_once three_calls ≤ (token + (60_000_000_000 - 4)) * 2
granted-le-rate_example =
    granted-le-rate two_a_minute "org:o|rpm" three_calls used_once 4 60_000_000_000
      (later (fresh 3) (omega arith) (admitted one_request))
      (
        omega arith,
        both,
        omega arith,
        (omega arith, both, omega arith, (omega arith, both, omega arith, omega arith)),
      )

Reaches-AllKept_example : AllKept 7 (allow [] "k" (pos 2) 7).1
Reaches-AllKept_example =
    Reaches-AllKept 7 (allow [] "k" (pos 2) 7).1
      (later (fresh 3) (omega arith) (allowed "k" (pos 2)))
