-- ===== src/Ratelimit/Limiter/Rate.antt =====
-- How much one bucket of internal/ratelimit/limiter.go lets through in a span of time.
use keera_gateway.Base.{
  ℕ, ◌+◌, ◌-◌, ◌*◌, ◌≤◌, ◌<◌, ◌&&◌, inl, inr, string_eq, text_eq_iff, Option, none, some, List, [],
  ◌∷◌, String, ltb, nat_eq, ◌==◌, ◌≡◌, Bool-cases, arith, All, ap,
}
use keera_gateway.Base.Dict.{get}
use keera_gateway.Base.Int.{ℤ, pos, pos_part, neg_part, ◌+ℤ◌, ◌-ℤ◌, ◌≤ℤ◌, int_laws, +ℤ_parts}
use keera_gateway.Ratelimit.Limiter.{
  Bucket, Limiter, Requirement, token, got, refill, retuned, rate, admit,
}
use keera_gateway.Ratelimit.Limiter.Kept.{
  IsKept, Reaches, KeptAt-get, Reaches-AllKept, got-IsKept, got_now,
}
use keera_gateway.Ratelimit.Limiter.Admit.{
  Limited, Satisfied, found, found-admit, admit-FirstShort, units, taken, takes,
}

-- A call of `Admit`: when, and for which requirements.
abbrev pub Call : Type 0
Call = ℕ × List Requirement

-- What a list of calls takes from a key.
abbrev pub granted : String → Limiter → List Call → ℕ
granted k l [] = 0
granted k l ((now, reqs) ∷ calls) =
    units k reqs (admit l reqs now).0 + granted k (admit l reqs now).1 calls

-- Calls in the order of their times, from one time to another, each of which asks for its keys'
-- limits and takes from the key once at most.
abbrev pub Between : (String → ℤ) → String → ℕ → ℕ → List Call → Type 0
Between limit k start end [] = start ≤ end
Between limit k start end ((now, reqs) ∷ calls) =
    (start ≤ now) × Limited limit reqs × (taken k reqs ≤ 1) × Between limit k now end calls

span_split :
    (last t now p : ℕ) → last ≤ t → t ≤ now → (now - last) * p ≡ (t - last) * p + (now - t) * p
span_split last t now p h k = grind arith

span_le : (last t now p : ℕ) → t ≤ last → (now - last) * p ≤ (now - t) * p
span_le last t now p h = grind arith

refill_later :
    (b : Bucket) (p t now : ℕ)
    → b.per_sec ≡ p
    → t ≤ now
    → (refill b now).tokens ≤ℤ (refill b t).tokens +ℤ pos ((now - t) * p)
unfolding refill
refill_later b p t now e h = rw (← e) (elim (Bool-cases (ltb b.last t)) [
  | inl earlier ↦
      let split = span_split b.last t now b.per_sec (ground arith) h in
      ground (
        arith,
        split,
        +ℤ_parts b.tokens (pos ((now - b.last) * b.per_sec)),
        +ℤ_parts b.tokens (pos ((t - b.last) * b.per_sec)),
        +ℤ_parts (refill b t).tokens (pos ((now - t) * b.per_sec)),
      )
  | inr later ↦
      let longer = span_le b.last t now b.per_sec (ground arith) in
      ground (
        arith,
        longer,
        +ℤ_parts b.tokens (pos ((now - b.last) * b.per_sec)),
        +ℤ_parts b.tokens (pos ((now - t) * b.per_sec)),
      )
])

retuned_rate : (b : Bucket) (limit : ℤ) → (retuned b limit).per_sec ≡ pos_part limit
unfolding retuned rate
retuned_rate b limit = ground arith

got_later :
    (o : Option Bucket) (limit : ℤ) (t now : ℕ)
    → t ≤ now
    → (got o limit now).tokens ≤ℤ (got o limit t).tokens +ℤ pos ((now - t) * pos_part limit)
unfolding got rate
got_later none limit t now h = omega int_laws
got_later (some b) limit t now h =
    refill_later (retuned b limit) (pos_part limit) t now (retuned_rate b limit) h

taken_held :
    (v : String → Bucket) (reqs : List Requirement) (k : String)
    → All (Satisfied v) reqs
    → 0 < taken k reqs
    → token ≤ pos_part (v k).tokens
taken_held v [] k h p = absurd (omega arith)
taken_held v (req ∷ reqs) k (s, h) p = elim (Bool-cases (takes req && (req.key == k))) [
  | inl here ↦
      let e : req.key ≡ k = (text_eq_iff req.key k).0 (ground arith) in
      rw (← e) (ground (arith, s (ground arith)))
  | inr away ↦ taken_held v reqs k h (rw away at p)
]

units_held :
    (limit : String → ℤ) (now : ℕ) (reqs : List Requirement) (l : Limiter) (k : String)
    → Limited limit reqs
    → taken k reqs ≤ 1
    → token * units k reqs (admit l reqs now).0 ≤ pos_part (found limit now l k).tokens
units_held limit now reqs l k h one = elim (admit-FirstShort limit now reqs l h) [
  | inl (admitted, held) ↦ rw admitted (elim (Bool-cases (ltb 0 (taken k reqs))) [
    | inl some' ↦ ground (arith, taken_held (found limit now l) reqs k held)
    | inr none' ↦ ground arith
  ])
  | inr (i, refused, _) ↦ rw refused (omega arith)
]

Between-le :
    (limit : String → ℤ) (k : String) (calls : List Call) (start end : ℕ)
    → Between limit k start end calls
    → start ≤ end
Between-le limit k [] start end h = h
Between-le limit k ((now, reqs) ∷ calls) start end (h, _, _, hs) =
    omega (arith, h, Between-le limit k calls now end hs)

-- One call in the account: what dripped in before it, and what the calls after it take.
spent :
    (at_start at_call left : ℤ) (unit others drip later total : ℕ)
    → at_call ≤ℤ at_start +ℤ pos drip
    → token * unit ≤ pos_part at_call
    → left ≡ at_call -ℤ pos (token * unit)
    → token * others ≤ pos_part left + later
    → total ≡ drip + later
    → token * (unit + others) ≤ pos_part at_start + total
spent at_start at_call left unit others drip later total h held after rest split =
    omega (int_laws, ap pos_part after, ap neg_part after)

module _ (limit : String → ℤ) (k : String) where
  granted_from :
      (calls : List Call) (l : Limiter) (t end : ℕ)
      → Between limit k t end calls
      → token * granted k l calls
        ≤ pos_part (found limit t l k).tokens + (end - t) * pos_part (limit k)
  granted_from [] l t end h = omega arith
  granted_from ((now, reqs) ∷ calls) l t end (h, lim, one, hs) =
      let n = pos_part (limit k) in
      let later = got_later (get l k) (limit k) t now h in
      let held = units_held limit now reqs l k lim one in
      let after = ap (λ (b : Bucket). b.tokens) (found-admit limit now reqs l k lim) in
      let rest = granted_from calls (admit l reqs now).1 now end hs in
      let in_time = Between-le limit k calls now end hs in
      let split = span_split t now end n h in_time in
      spent (found limit t l k).tokens (found limit now l k).tokens
        (found limit now (admit l reqs now).1 k).tokens (units k reqs (admit l reqs now).0)
        (granted k (admit l reqs now).1 calls) ((now - t) * n) ((end - now) * n) ((end - t) * n)
        later held after rest split

  -- Over any span of time a key grants a full bucket and what drips in meanwhile at most: with a limit
  -- of n per minute, n and n more for each minute, in proportion. The calls of the span are in order of
  -- time, each key has one limit throughout, and each call takes from the key once at most; before it,
  -- anything may have been asked of the limiter, under any limits, in order of time. Tokens are counted
  -- without rounding.
  pub granted-le-rate :
      (calls : List Call) (l : Limiter) (start end : ℕ)
      → Reaches start l
      → Between limit k start end calls
      → token * granted k l calls ≤ (token + (end - start)) * pos_part (limit k)
  granted-le-rate calls l start end before h =
      let from_start = granted_from calls l start end h in
      let kept = KeptAt-get l start k (Reaches-AllKept start l before) in
      let full : IsKept start (found limit start l k) = got-IsKept (get l k) (limit k) start kept in
      let rated : (found limit start l k).per_sec ≡ pos_part (limit k) =
        (got_now (get l k) (limit k) start kept).1 in
      let at_most : pos_part (found limit start l k).tokens ≤ pos_part (limit k) * token =
        omega (int_laws, full.within, full.full_at, ap (λ (n : ℕ). n * token) rated) in
      grind arith
