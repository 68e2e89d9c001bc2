-- ===== src/Ratelimit/Limiter/Kept.antt =====
-- The buckets of internal/ratelimit/limiter.go over any sequence of operations, in order of time.
use keera_gateway.Base.{
  ℕ, suc, ◌+◌, ◌-◌, ◌*◌, ◌≡◌, ◌≤◌, not, ◌||◌, Option, none, some, List, [], ◌∷◌, String, ltb,
  nat_eq, string_eq, ◌==◌, inl, inr, Bool-cases, arith, All,
}
use keera_gateway.Base.Dict.{get, put, delete}
use keera_gateway.Base.Int.{ℤ, pos, pos_part, leb_ℤ, ltb_ℤ, ◌-ℤ◌, ◌≤ℤ◌, +ℤ_parts, -ℤ_parts}
use keera_gateway.Ratelimit.Limiter.{
  Bucket, Limiter, Requirement, token, got, refill, retuned, rate, get_bucket, allow, decide,
  settled, charge, take_units, admit, charge_each, charge_all, in_parts, remaining, retry, sweep,
}

-- A bucket that fits its rate, holds no more than it can, and was not refilled after this time.
pub record IsKept (now : ℕ) (b : Bucket) : Type 0 where
  pub in_past : b.last ≤ now
  pub full_at : b.burst ≡ b.per_sec * token
  pub within : b.tokens ≤ℤ pos b.burst

abbrev pub KeptAt : ℕ → Option Bucket → Type 0
KeptAt now none = Unit
KeptAt now (some b) = IsKept now b

-- A bucket that is read is kept, whatever the limit is now.
pub got-IsKept :
    (o : Option Bucket) (limit : ℤ) (now : ℕ) → KeptAt now o → IsKept now (got o limit now)
unfolding got retuned refill rate
got-IsKept none limit now h = ground arith
got-IsKept (some b) limit now h =
    ground (arith, +ℤ_parts b.tokens (pos ((now - b.last) * b.per_sec)))

pub got_now :
    (o : Option Bucket) (limit : ℤ) (now : ℕ)
    → KeptAt now o
    → ((got o limit now).last ≡ now) × ((got o limit now).per_sec ≡ pos_part limit)
unfolding got retuned refill rate
got_now none limit now h = ground arith
got_now (some b) limit now h = ground arith

-- Every bucket of the map is kept.
abbrev pub AllKept : ℕ → Limiter → Type 0
AllKept now = All (λ (e : String × Bucket). IsKept now e.1)

-- One operation at a time, whatever it answers.
pub data Step (now : ℕ) : Limiter → Limiter → Type 0 where
  allowed : {l : Limiter} (k : String) (limit : ℤ) → Step now l (allow l k limit now).1
  admitted : {l : Limiter} (reqs : List Requirement) → Step now l (admit l reqs now).1
  charged :
      {l : Limiter} (reqs : List Requirement) (n : ℕ) → Step now l (charge_all l reqs (pos n) now)
  remained : {l : Limiter} (k : String) (limit : ℤ) → Step now l (remaining l k limit now).1
  retried : {l : Limiter} (k : String) (limit : ℤ) → Step now l (retry l k limit now)
  swept : {l : Limiter} (idle : ℕ) → Step now l (sweep l idle now)

-- The limiters that a new one comes to, and the time.
pub data Reaches : ℕ → Limiter → Type 0 where
  fresh : (now : ℕ) → Reaches now []
  later : {t now : ℕ} {l l' : Limiter} → Reaches t l → t ≤ now → Step now l l' → Reaches now l'

IsKept-later : (t now : ℕ) (b : Bucket) → t ≤ now → IsKept t b → IsKept now b
IsKept-later t now b h k = ground arith

AllKept-later : (l : Limiter) (t now : ℕ) → t ≤ now → AllKept t l → AllKept now l
AllKept-later [] t now h k = tt
AllKept-later ((j, b) ∷ l) t now h (k, ks) = (IsKept-later t now b h k, AllKept-later l t now h ks)

pub KeptAt-get : (l : Limiter) (now : ℕ) (k : String) → AllKept now l → KeptAt now (get l k)
unfolding get
KeptAt-get [] now k h = tt
KeptAt-get ((j, b) ∷ l) now k (h, hs) = elim (Bool-cases (j == k)) [
  | inl here ↦ rw here h
  | inr away ↦ rw away (KeptAt-get l now k hs)
]

AllKept-delete : (l : Limiter) (now : ℕ) (k : String) → AllKept now l → AllKept now (delete l k)
unfolding delete
AllKept-delete [] now k h = tt
AllKept-delete ((j, b) ∷ l) now k (h, hs) = elim (Bool-cases (j == k)) [
  | inl here ↦ rw here (AllKept-delete l now k hs)
  | inr away ↦ rw away (h, AllKept-delete l now k hs)
]

AllKept-put :
    (l : Limiter) (now : ℕ) (k : String) (b : Bucket)
    → AllKept now l
    → IsKept now b
    → AllKept now (put l k b)
unfolding put
AllKept-put l now k b h p = (p, AllKept-delete l now k h)

IsKept-less :
    (b : Bucket) (now n : ℕ) → IsKept now b → IsKept now (record b { tokens = b.tokens -ℤ pos n })
IsKept-less b now n h = ground (arith, -ℤ_parts b.tokens (pos n))

module _ (now : ℕ) where
  got-IsKept_at :
      (l : Limiter) (k : String) (limit : ℤ) → AllKept now l → IsKept now (got (get l k) limit now)
  got-IsKept_at l k limit h = got-IsKept (get l k) limit now (KeptAt-get l now k h)

  get_bucket-AllKept :
      (l : Limiter) (k : String) (limit : ℤ)
      → AllKept now l
      → AllKept now (get_bucket l k limit now).1
  unfolding get_bucket
  get_bucket-AllKept l k limit h = AllKept-put l now k _ h (got-IsKept_at l k limit h)

  less-AllKept :
      (l : Limiter) (k : String) (limit : ℤ) (n : ℕ)
      → AllKept now l
      → AllKept now (
          put (get_bucket l k limit now).1 k (record (got (get l k) limit now) {
            tokens = (got (get l k) limit now).tokens -ℤ pos n;
          }))
  less-AllKept l k limit n h =
      AllKept-put (get_bucket l k limit now).1 now k _ (get_bucket-AllKept l k limit h)
        (IsKept-less (got (get l k) limit now) now n (got-IsKept_at l k limit h))

  charge-AllKept :
      (l : Limiter) (req : Requirement) (n : ℕ)
      → AllKept now l
      → AllKept now (charge l req (pos n) now)
  unfolding charge
  charge-AllKept l req n h = less-AllKept l req.key req.per_minute n h

  decide-AllKept :
      (reqs : List Requirement) (l : Limiter) (i : ℕ)
      → AllKept now l
      → AllKept now (decide l reqs i now).1
  unfolding decide
  decide-AllKept [] l i h = h
  decide-AllKept (req ∷ reqs) l i h =
      let next = get_bucket-AllKept l req.key req.per_minute h in
      ground (
        arith,
        decide-AllKept reqs l (suc i) h,
        decide-AllKept reqs (get_bucket l req.key req.per_minute now).1 (suc i) next,
        next,
      )

  take_units-AllKept :
      (reqs : List Requirement) (l : Limiter) → AllKept now l → AllKept now (take_units l reqs now)
  unfolding take_units
  take_units-AllKept [] l h = h
  take_units-AllKept (req ∷ reqs) l h =
      elim (Bool-cases (leb_ℤ req.per_minute (pos 0) || not req.take)) [
        | inl skip ↦ rw skip (take_units-AllKept reqs l h)
        | inr takes ↦
            rw takes (
              take_units-AllKept reqs (charge l req (pos token) now) (charge-AllKept l req token h))
      ]

  settled-AllKept :
      (d : Option ℕ × Limiter) (reqs : List Requirement)
      → AllKept now d.1
      → AllKept now (settled d reqs now).1
  unfolding settled
  settled-AllKept (none, l) reqs h = take_units-AllKept reqs l h
  settled-AllKept (some i, l) reqs h = h

  charge_each-AllKept :
      (reqs : List Requirement) (l : Limiter) (n : ℕ)
      → AllKept now l
      → AllKept now (charge_each l reqs (pos n) now)
  unfolding charge_each
  charge_each-AllKept [] l n h = h
  charge_each-AllKept (req ∷ reqs) l n h = elim (Bool-cases (ltb_ℤ (pos 0) req.per_minute)) [
    | inl limited ↦
        rw limited
          (charge_each-AllKept reqs (charge l req (pos n) now) n (charge-AllKept l req n h))
    | inr unlimited ↦ rw unlimited (charge_each-AllKept reqs l n h)
  ]

  sweep-AllKept : (l : Limiter) (idle : ℕ) → AllKept now l → AllKept now (sweep l idle now)
  unfolding sweep
  sweep-AllKept [] idle h = tt
  sweep-AllKept ((k, b) ∷ l) idle (h, hs) = elim (Bool-cases (ltb (b.last_seen + idle) now)) [
    | inl old ↦ rw old (sweep-AllKept l idle hs)
    | inr young ↦ rw young (h, sweep-AllKept l idle hs)
  ]

  Step-AllKept : (l l' : Limiter) → AllKept now l → Step now l l' → AllKept now l'
  unfolding admit allow charge_all in_parts remaining retry
  Step-AllKept l _ h (allowed k limit) =
      ground (arith, get_bucket-AllKept l k limit h, less-AllKept l k limit token h)
  Step-AllKept l _ h (admitted reqs) =
      settled-AllKept (decide l reqs 0 now) reqs (decide-AllKept reqs l 0 h)
  Step-AllKept l _ h (charged reqs n) = ground (arith, charge_each-AllKept reqs l (n * token) h)
  Step-AllKept l _ h (remained k limit) = ground (arith, get_bucket-AllKept l k limit h)
  Step-AllKept l _ h (retried k limit) = ground (arith, get_bucket-AllKept l k limit h)
  Step-AllKept l _ h (swept idle) = sweep-AllKept l idle h

-- Whatever is asked of a new limiter, in order of time, each of its buckets holds no more than a
-- full one, is as large as its rate says, and was last refilled in the past. No charge is negative.
pub Reaches-AllKept : (now : ℕ) (l : Limiter) → Reaches now l → AllKept now l
Reaches-AllKept now _ (fresh _) = tt
Reaches-AllKept now l' (later {t = t} {l = l} r h s) =
    Step-AllKept now l l' (AllKept-later l t now h (Reaches-AllKept t l r)) s
