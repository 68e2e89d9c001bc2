-- ===== src/Ratelimit/Limiter.antt =====
-- `Limiter` of internal/ratelimit/limiter.go. The source counts tokens in floating point (float64);
-- here they are exact, in parts of 1 / `token`, the unit in which a bucket of n per minute gains n
-- parts in each nanosecond. A refill of the source may round by some units in the last place of a
-- bucket's tokens, so a comparison with a bucket that is within that of a whole token may turn out
-- otherwise there. The wait that `Retry` answers is left out: it is such a quotient. Times and
-- durations are nanoseconds; a time before another counts as no time elapsed, as in the source. The
-- lock makes each operation one step.
pub mod Buckets
pub mod Admit
pub mod Kept
pub mod Rate
use keera_gateway.Base.{
  ℕ, suc, ◌+◌, ◌-◌, ◌*◌, ◌/◌, Bool, true, false, not, ◌||◌, Option, none, some, List, [], ◌∷◌,
  String, ltb, nat_eq, ◌==◌, ◌≡◌, if◌then◌else◌,
}
use keera_gateway.Base.Dict.{Dict, get, put}
use keera_gateway.Base.Int.{ℤ, pos, negsuc, pos_part, ltb_ℤ, leb_ℤ, eqb_ℤ, min_ℤ, ◌+ℤ◌, ◌-ℤ◌, ◌≤ℤ◌}

-- One whole token, in parts: the nanoseconds of a minute.
abbrev pub token : ℕ
token = 60_000_000_000

pub record Bucket : Type 0 where
  pub tokens : ℤ
  pub per_sec : ℕ
  pub burst : ℕ
  pub last : ℕ
  pub last_seen : ℕ

-- `rate`, for a positive limit: the parts gained in a nanosecond, and the parts of a full bucket
unfoldable pub rate : ℤ → ℕ × ℕ
rate per_minute = (pos_part per_minute, pos_part per_minute * token)

-- `refill`, without the rounding of the source
unfoldable pub refill : Bucket → ℕ → Bucket
refill b now =
    if ltb b.last now
    then record b {
      tokens = min_ℤ (pos b.burst) (b.tokens +ℤ pos ((now - b.last) * b.per_sec));
      last = now;
      last_seen = now;
    }
    else record b { last_seen = now }

-- A bucket with the rate that is asked for now
retuned : Bucket → ℤ → Bucket
retuned b per_minute = if (b.per_sec) == ((rate per_minute).0) then b else record b {
  per_sec = (rate per_minute).0;
  burst = (rate per_minute).1;
  tokens = min_ℤ b.tokens (pos (rate per_minute).1);
}

-- What `get` returns for what the map holds under the key
unfoldable pub got : Option Bucket → ℤ → ℕ → Bucket
unfolding retuned refill rate
got none per_minute now = record {
  tokens = pos (rate per_minute).1;
  per_sec = (rate per_minute).0;
  burst = (rate per_minute).1;
  last = now;
  last_seen = now;
}
got (some b) per_minute now = refill (retuned b per_minute) now

abbrev pub Limiter : Type 0
Limiter = Dict Bucket

-- `get`, with the map that has the bucket
unfoldable pub get_bucket : Limiter → String → ℤ → ℕ → Bucket × Limiter
get_bucket l key per_minute now = let b = got (get l key) per_minute now in (b, put l key b)

-- `allow`: whether a unit was there, and the map without it
unfoldable pub allow : Limiter → String → ℤ → ℕ → Bool × Limiter
unfolding get_bucket
allow l key per_minute now =
    if leb_ℤ per_minute (pos 0)
    then (true, l)
    else (let (b, l') = get_bucket l key per_minute now in
        if ltb_ℤ b.tokens (pos token)
        then (false, l')
        else (true, put l' key (record b { tokens = b.tokens -ℤ pos token })))

pub record Requirement : Type 0 where
  pub key : String
  pub per_minute : ℤ
  pub take : Bool

unfoldable pub holds : Bool → ℤ → Bool
holds take tokens = if take then leb_ℤ (pos token) tokens else ltb_ℤ (pos 0) tokens

-- The first loop of `Admit`: the index of the first requirement that fails
unfoldable pub decide : Limiter → List Requirement → ℕ → ℕ → Option ℕ × Limiter
unfolding get_bucket holds
decide l [] i now = (none, l)
decide l (req ∷ reqs) i now =
    let bl = get_bucket l req.key req.per_minute now in
    let unlimited = decide l reqs (suc i) now in
    let limited = decide bl.1 reqs (suc i) now in
    if leb_ℤ req.per_minute (pos 0)
    then unlimited
    else if holds req.take bl.0.tokens
    then limited
    else (some i, bl.1)

-- `l.get(…).tokens -= n`
unfoldable pub charge : Limiter → Requirement → ℤ → ℕ → Limiter
unfolding get_bucket
charge l req n now =
    let (b, l') = get_bucket l req.key req.per_minute now in
    put l' req.key (record b { tokens = b.tokens -ℤ n })

-- The second loop of `Admit`
unfoldable pub take_units : Limiter → List Requirement → ℕ → Limiter
unfolding charge
take_units l [] now = l
take_units l (req ∷ reqs) now =
    let l' =
      if leb_ℤ req.per_minute (pos 0) || not req.take then l else charge l req (pos token) now in
    take_units l' reqs now

-- `Admit` after its first loop
settled : Option ℕ × Limiter → List Requirement → ℕ → ℤ × Limiter
settled (none, l) reqs now = (negsuc 0, take_units l reqs now)
settled (some i, l) reqs now = (pos i, l)

-- `Admit`: the index of the first requirement that failed, or -1
unfoldable pub admit : Limiter → List Requirement → ℕ → ℤ × Limiter
unfolding settled decide take_units
admit l reqs now = settled (decide l reqs 0 now) reqs now

charge_each : Limiter → List Requirement → ℤ → ℕ → Limiter
charge_each l [] n now = l
charge_each l (req ∷ reqs) n now =
    let l' = if ltb_ℤ (pos 0) req.per_minute then charge l req n now else l in
    charge_each l' reqs n now

-- So many tokens, in parts
in_parts : ℤ → ℤ
in_parts (pos n) = pos (n * token)
in_parts (negsuc n) = negsuc (n * token + (token - 1))

-- `ChargeAll` of a whole number of tokens, as its callers give it
unfoldable pub charge_all : Limiter → List Requirement → ℤ → ℕ → Limiter
unfolding charge_each charge in_parts
charge_all l reqs n now = if eqb_ℤ n (pos 0) then l else charge_each l reqs (in_parts n) now

-- The function `remaining`: whole tokens, and 0 in debt
unfoldable pub whole : ℤ → ℤ
whole tokens = if ltb_ℤ (pos 0) tokens then pos (pos_part tokens / token) else pos 0

-- `Remaining`
unfoldable pub remaining : Limiter → String → ℤ → ℕ → ℤ × Limiter
unfolding get_bucket whole
remaining l key per_minute now =
    if leb_ℤ per_minute (pos 0)
    then (negsuc 0, l)
    else (let (b, l') = get_bucket l key per_minute now in (whole b.tokens, l'))

-- `Retry`, of which only what it does to the map is here: the wait is a quotient in floating point
unfoldable pub retry : Limiter → String → ℤ → ℕ → Limiter
unfolding get_bucket
retry l key per_minute now =
    if leb_ℤ per_minute (pos 0) then l else (get_bucket l key per_minute now).1

-- `Sweep`
unfoldable pub sweep : Limiter → ℕ → ℕ → Limiter
sweep [] idle now = []
sweep ((k, b) ∷ l) idle now =
    let rest = sweep l idle now in if ltb (b.last_seen + idle) now then rest else (k, b) ∷ rest
