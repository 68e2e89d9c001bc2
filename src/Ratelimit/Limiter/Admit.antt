-- ===== src/Ratelimit/Limiter/Admit.antt =====
-- What `Admit` of internal/ratelimit/limiter.go decides and charges, where each key has one limit.
use keera_gateway.Base.{
  ℕ, suc, ◌+◌, ◌*◌, Bool, true, false, not, ◌||◌, ◌&&◌, Option, none, some, List, [], ◌∷◌, String,
  nat_eq, ◌==◌, string_eq, ◌≡◌, ◌⊎◌, inl, inr, refl, Bool-cases, if◌then◌else◌, arith, All,
  text_eq_iff, ap, sym, ◌∙◌,
}
use keera_gateway.Base.Dict.{get, get-put}
use keera_gateway.Base.Int.{ℤ, pos, negsuc, leb_ℤ, ltb_ℤ, ◌-ℤ◌, ◌≤ℤ◌, ◌<ℤ◌, int_laws}
use keera_gateway.Ratelimit.Limiter.{
  Bucket, Limiter, Requirement, token, got, get_bucket, holds, decide, charge, take_units, admit,
  settled,
}
use keera_gateway.Ratelimit.Limiter.Buckets.{got-got, got_less}

-- The bucket a request would find under a key.
abbrev pub found : (String → ℤ) → ℕ → Limiter → String → Bucket
found limit now l k = got (get l k) (limit k) now

-- Each requirement asks for its key's limit.
abbrev pub Limited : (String → ℤ) → List Requirement → Type 0
Limited limit = All (λ (req : Requirement). req.per_minute ≡ limit req.key)

-- What a requirement asks of the tokens under its key: a whole one to take, or some credit.
abbrev pub Satisfied : (String → Bucket) → Requirement → Type 0
Satisfied v req =
    pos 0 <ℤ req.per_minute
    → (req.take ≡ true → pos token ≤ℤ (v req.key).tokens)
      × (req.take ≡ false → pos 0 <ℤ (v req.key).tokens)

-- The first requirement that is not satisfied stands at this index.
pub data FirstShort (v : String → Bucket) : List Requirement → ℕ → Type 0 where
  here :
      {req : Requirement} {reqs : List Requirement}
      → ¬ Satisfied v req
      → FirstShort v (req ∷ reqs) 0
  there :
      {req : Requirement} {reqs : List Requirement} {i : ℕ}
      → Satisfied v req
      → FirstShort v reqs i
      → FirstShort v (req ∷ reqs) (i + 1)

-- How often a list of requirements takes from a key.
abbrev pub takes : Requirement → Bool
takes req = ltb_ℤ (pos 0) req.per_minute && req.take

abbrev pub taken : String → List Requirement → ℕ
taken k [] = 0
taken k (req ∷ reqs) =
    let rest = taken k reqs in if takes req && (req.key == k) then suc rest else rest

-- A bucket after some whole units were taken from it.
abbrev pub less : ℕ → Bucket → Bucket
less n b = record b { tokens = b.tokens -ℤ pos (token * n) }

-- The units taken from a key by a call with this answer.
abbrev pub units : String → List Requirement → ℤ → ℕ
units k reqs (pos i) = 0
units k reqs (negsuc i) = taken k reqs

module _ (limit : String → ℤ) (now : ℕ) where
  abbrev Shows : Limiter → (String → Bucket) → Type 0
  Shows l v = (k : String) → found limit now l k ≡ v k

  -- Looking at a bucket changes nothing that a request would find.
  get_bucket-Shows :
      (l : Limiter) (v : String → Bucket) (k : String)
      → Shows l v
      → Shows (get_bucket l k (limit k) now).1 v
  unfolding get_bucket
  get_bucket-Shows l v k h j = elim (Bool-cases (k == j)) [
    | inl same ↦
        let e : k ≡ j = (text_eq_iff k j).0 same in
        rw (get-put, same) (rw (← e) (got-got (get l k) (limit k) now ∙ h k))
    | inr other ↦ rw (get-put, other) (h j)
  ]

  -- The first loop over a suffix of the requirements, from the index at which it stands.
  data Decided (v : String → Bucket) (reqs : List Requirement) (i : ℕ) : Option ℕ → Type 0 where
    all_hold : All (Satisfied v) reqs → Decided v reqs i none
    short : (j m : ℕ) → FirstShort v reqs j → m ≡ j + i → Decided v reqs i (some m)

  passed :
      {v : String → Bucket} {req : Requirement} {reqs : List Requirement} {i : ℕ} {o : Option ℕ}
      → Satisfied v req
      → Decided v reqs (suc i) o
      → Decided v (req ∷ reqs) i o
  passed s (all_hold h) = all_hold (s, h)
  passed s (short j m f e) = short (j + 1) m (there s f) (omega arith)

  holds-Satisfied :
      (v : String → Bucket) (req : Requirement)
      → holds req.take (v req.key).tokens ≡ true
      → Satisfied v req
  unfolding holds
  holds-Satisfied v req h p = ground arith

  not_Satisfied :
      (v : String → Bucket) (req : Requirement)
      → leb_ℤ req.per_minute (pos 0) ≡ false
      → holds req.take (v req.key).tokens ≡ false
      → ¬ Satisfied v req
  unfolding holds
  not_Satisfied v req p h s = ground (arith, s (ground arith))

  decide_lem :
      (reqs : List Requirement) (l : Limiter) (v : String → Bucket) (i : ℕ)
      → Shows l v
      → Limited limit reqs
      → Decided v reqs i (decide l reqs i now).0 × Shows (decide l reqs i now).1 v
  unfolding decide
  decide_lem [] l v i h lim = (all_hold tt, h)
  decide_lem (req ∷ reqs) l v i h (e, lim) = elim (Bool-cases (leb_ℤ req.per_minute (pos 0))) [
    | inl unlimited ↦
        let (d, k) = decide_lem reqs l v (suc i) h lim in
        rw unlimited (passed (λ p. absurd (ground arith)) d, k)
    | inr limited ↦
        let b : got (get l req.key) req.per_minute now ≡ v req.key = rw e (h req.key) in
        let next : Shows (get_bucket l req.key req.per_minute now).1 v =
          rw e (get_bucket-Shows l v req.key h) in
        let t = ap (λ (c : Bucket). c.tokens) b in
        elim (Bool-cases (holds req.take (got (get l req.key) req.per_minute now).tokens)) [
          | inl held ↦
              let (d, k) =
                decide_lem reqs (get_bucket l req.key req.per_minute now).1 v (suc i) next lim in
              rw (limited, held) (passed (holds-Satisfied v req (rw t at held)) d, k)
          | inr short' ↦
              rw (limited, short')
                (
                  short 0 i (here (not_Satisfied v req limited (rw t at short'))) (omega arith),
                  next,
                )
        ]
  ]

  less_once : (b : Bucket) → less 0 b ≡ b
  less_once b = ap (λ (t : ℤ). record b { tokens = t }) (omega int_laws)

  less-suc : (n : ℕ) (b : Bucket) → less n (less 1 b) ≡ less (suc n) b
  less-suc n b = ap (λ (t : ℤ). record b { tokens = t }) (omega int_laws)

  found-charge :
      (l : Limiter) (req : Requirement) (k : String)
      → req.per_minute ≡ limit req.key
      → found limit now (charge l req (pos token) now) k
        ≡ (if req.key == k then less 1 (found limit now l k) else found limit now l k)
  unfolding charge
  found-charge l req k e = elim (Bool-cases (req.key == k)) [
    | inl same ↦
        let e' : req.key ≡ k = (text_eq_iff req.key k).0 same in
        rw (get-put, same)
          (rw (← e', e) (got_less (get l req.key) (limit req.key) now (pos token) (omega arith)))
    | inr other ↦ rw (get-put, other) (rw (get-put, other) refl)
  ]

  skips : (req : Requirement) → (leb_ℤ req.per_minute (pos 0) || not req.take) ≡ not (takes req)
  skips req = ground arith

  found-take_units :
      (reqs : List Requirement) (l : Limiter) (k : String)
      → Limited limit reqs
      → (found limit now (take_units l reqs now) k) ≡ less (taken k reqs) (found limit now l k)
  unfolding take_units
  found-take_units [] l k h = sym (less_once _)
  found-take_units (req ∷ reqs) l k (e, h) = rw (skips req) (elim (Bool-cases (takes req)) [
    | inr other ↦ rw other (found-take_units reqs l k h)
    | inl takes' ↦ rw takes' (
        found-take_units reqs (charge l req (pos token) now) k h
        ∙ rw (found-charge l req k e) (elim (Bool-cases (req.key == k)) [
          | inl same ↦ rw same (less-suc (taken k reqs) (found limit now l k))
          | inr away ↦ rw away refl
        ]))
  ])

  -- Where each key has one limit, a request is admitted exactly when every limited requirement is
  -- satisfied by what its bucket held before; otherwise the answer is the index of the first that
  -- is not.
  pub admit-FirstShort :
      (reqs : List Requirement) (l : Limiter)
      → Limited limit reqs
      → ((admit l reqs now).0 ≡ negsuc 0 × All (Satisfied (found limit now l)) reqs)
        ⊎ ((i : ℕ) × ((admit l reqs now).0 ≡ pos i) × FirstShort (found limit now l) reqs i)
  unfolding admit
  admit-FirstShort reqs l h =
      go (decide l reqs 0 now) (decide_lem reqs l (found limit now l) 0 (λ k. refl) h).0
    where
      go :
          (d : Option ℕ × Limiter)
          → Decided (found limit now l) reqs 0 d.0
          → ((settled d reqs now).0 ≡ negsuc 0 × All (Satisfied (found limit now l)) reqs)
            ⊎ ((i : ℕ) × ((settled d reqs now).0 ≡ pos i) × FirstShort (found limit now l) reqs i)
      go (none, l') (all_hold h') = inl (refl, h')
      go (some m, l') (short j _ f e) = inr (j, ap pos (omega arith), f)

  -- Where each key has one limit, admitting a request takes one unit from a key for each requirement
  -- that takes from it; a refused request takes nothing from any bucket, whichever were looked at.
  pub found-admit :
      (reqs : List Requirement) (l : Limiter) (k : String)
      → Limited limit reqs
      → found limit now (admit l reqs now).1 k
        ≡ less (units k reqs (admit l reqs now).0) (found limit now l k)
  unfolding admit
  found-admit reqs l k h =
      let seen = (decide_lem reqs l (found limit now l) 0 (λ j. refl) h).1 k in
      go (decide l reqs 0 now) seen
    where
      go :
          (d : Option ℕ × Limiter)
          → found limit now d.1 k ≡ found limit now l k
          → found limit now (settled d reqs now).1 k
            ≡ less (units k reqs (settled d reqs now).0) (found limit now l k)
      go (none, l') e = found-take_units reqs l' k h ∙ ap (less (taken k reqs)) e
      go (some m, l') e = e ∙ sym (less_once _)
