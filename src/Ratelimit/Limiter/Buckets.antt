-- ===== src/Ratelimit/Limiter/Buckets.antt =====
-- One bucket of internal/ratelimit/limiter.go under `get`: what it holds at a time, and what a
-- second look at the same time changes.
use keera_gateway.Base.{ℕ, Option, none, some, nat_eq, ◌≡◌, arith}
use keera_gateway.Base.Int.{ℤ, pos, pos_part, ◌-ℤ◌, ◌≤ℤ◌}
use keera_gateway.Ratelimit.Limiter.{Bucket, got}

-- Reading a bucket twice at one time is reading it once.
pub got-got :
    (o : Option Bucket) (per_minute : ℤ) (now : ℕ)
    → got (some (got o per_minute now)) per_minute now ≡ got o per_minute now
unfolding got
got-got none per_minute now = ground arith
got-got (some b) per_minute now = ground arith

-- A bucket that is read has the rate that is asked for.
pub got_rate :
    (o : Option Bucket) (per_minute : ℤ) (now : ℕ)
    → ((got o per_minute now).per_sec ≡ pos_part per_minute)
unfolding got
got_rate none per_minute now = ground arith
got_rate (some b) per_minute now = ground arith

-- A unit taken from a bucket that was read does not change how it is read again.
pub got_less :
    (o : Option Bucket) (per_minute : ℤ) (now : ℕ) (n : ℤ)
    → (pos 0 ≤ℤ n)
    → got
        (some (record (got o per_minute now) { tokens = (got o per_minute now).tokens -ℤ n }))
        per_minute
        now
      ≡ record (got o per_minute now) { tokens = (got o per_minute now).tokens -ℤ n }
unfolding got
got_less none per_minute now n h = ground arith
got_less (some b) per_minute now n h = ground arith
