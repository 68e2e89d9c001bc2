-- ===== src/Gateway/Size/Agreement.antt =====
-- What the order of a size step of internal/gateway/size.go has in front, against the destinations in
-- the order of their ceilings.
use keera_gateway.Base.{
  ℕ, String, Bool, true, false, ◌&&◌, ◌||◌, Option, none, some, List, [], ◌∷◌, nat_eq, string_eq,
  All, if◌then◌else◌, ◌≡◌, ◌≢◌, refl, inl, inr, Bool-cases, arith,
}
use keera_gateway.Base.Dict.{Dict}
use keera_gateway.Base.Int.{ℤ, pos, ltb_ℤ, leb_ℤ, eqb_ℤ, ◌≤ℤ◌}
use keera_gateway.Policy.Model.{Model}
use keera_gateway.Policy.Route.{ceiling}
use keera_gateway.Gateway.Serve.{serveable}
use keera_gateway.Gateway.Sorting.{
  sort_stable, first_that, better, IsRanking, first_that-sort_stable,
}
use keera_gateway.Gateway.Size.{
  Ranked, Entry, tier_of, by_ceiling, suits_better, ranked, entries, size_fits, size_over_ceiling,
  size_too_large, max_context_of,
}

-- A request of so many tokens is meant for the entry.
abbrev pub suits : ℕ → Entry → Bool
suits t (alias, c) = eqb_ℤ c (pos 0) || leb_ℤ (pos t) c

pub by_ceiling-IsRanking : IsRanking (λ (a b : Entry). by_ceiling a.1 b.1)
unfolding by_ceiling
by_ceiling-IsRanking = record {
  one_way = λ x y h. ground (arith, h);
  passes_on = λ x y z h k. ground (arith, h, k);
}

suits_better-IsRanking : IsRanking suits_better
unfolding suits_better by_ceiling
suits_better-IsRanking = record {
  one_way = λ x y h. ground (arith, h);
  passes_on = λ x y z h k. ground (arith, h, k);
}

-- A context that holds so many tokens: none is declared, or as many at least.
abbrev pub roomy : ℕ → ℤ → Bool
roomy t max_context = leb_ℤ max_context (pos 0) || leb_ℤ (pos t) max_context

-- The destinations that can be served and whose context holds so many tokens.
abbrev pub takers : (String → Option Model) → ℕ → List String → List String
takers find t [] = []
takers find t (d ∷ ds) =
    let rest = takers find t ds in
    if serveable find d && roomy t (max_context_of (find d)) then d ∷ rest else rest

-- What the sort by tier and ceiling has in front, beside the first that suits by ceiling.
abbrev pub Agrees : Option Entry → Option Ranked → Type 0
Agrees none none = Unit
Agrees none (some r) = r.tier ≢ size_fits
Agrees (some e) none = ⊥
Agrees (some e) (some r) = (r.alias ≡ e.0) × ((r.ceiling ≡ e.1) × (r.tier ≡ size_fits))

-- Every destination that is ranked.
abbrev pub any_one : Ranked → Bool
any_one r = true

module _ (find : String → Option Model) (ceilings : Dict ℤ) (t : ℕ) where
  abbrev entry : String → Entry
  entry alias = (alias, (ceiling ceilings alias).0)

  abbrev rank : String → Ranked
  rank alias = record {
    alias = alias;
    tier = tier_of t (max_context_of (find alias)) (ceiling ceilings alias);
    ceiling = (ceiling ceilings alias).0;
  }

  bounded_by :
      (alias : String) → (ceiling ceilings alias).1 ≡ ltb_ℤ (pos 0) (ceiling ceilings alias).0
  unfolding ceiling
  bounded_by alias = ground arith

  tier-suits :
      (alias : String) (c max_context : ℤ)
      → roomy t max_context ≡ true
      → pos 0 ≤ℤ c
      → tier_of t max_context (c, ltb_ℤ (pos 0) c)
        ≡ (if suits t (alias, c) then size_fits else size_over_ceiling)
  unfolding tier_of
  tier-suits alias c max_context h p = ground arith

  rank_tier :
      (alias : String)
      → roomy t (max_context_of (find alias)) ≡ true
      → pos 0 ≤ℤ (ceiling ceilings alias).0
      → (rank alias).tier ≡ (if suits t (entry alias) then size_fits else size_over_ceiling)
  unfolding tier_of
  rank_tier alias h p =
      rw (bounded_by alias)
        (tier-suits alias (ceiling ceilings alias).0 (max_context_of (find alias)) h p)

  -- A destination that fits, beside the first that does.
  fits_better :
      (alias : String) (o : Option Entry) (r : Option Ranked)
      → suits t (entry alias) ≡ true
      → (rank alias).tier ≡ size_fits
      → Agrees o r
      → Agrees
          (better (λ a b. by_ceiling a.1 b.1) (suits t) (entry alias) o)
          (better suits_better any_one (rank alias) r)
  fits_better alias none none fits e k = rw fits (refl, (refl, e))
  fits_better alias (some o) none fits e k = absurd k
  fits_better alias none (some r) fits e k =
      let behind : suits_better r (rank alias) ≡ false =
        unfold suits_better in ground (arith, e, k) in
      rw (fits, behind) (refl, (refl, e))
  fits_better alias (some o) (some r) fits e (same, (ceil, tier)) =
      let by_limit : suits_better r (rank alias) ≡ by_ceiling o.1 (ceiling ceilings alias).0 =
        unfold suits_better in ground (arith, e, tier, ceil) in
      elim (Bool-cases (by_ceiling o.1 (ceiling ceilings alias).0)) [
        | inl before ↦ rw (by_limit, before, fits) (same, (ceil, tier))
        | inr behind ↦ rw (by_limit, behind, fits) (refl, (refl, e))
      ]

  over_better :
      (alias : String) (o : Option Entry) (r : Option Ranked)
      → suits t (entry alias) ≡ false
      → (rank alias).tier ≡ size_over_ceiling
      → Agrees o r
      → Agrees
          (better (λ a b. by_ceiling a.1 b.1) (suits t) (entry alias) o)
          (better suits_better any_one (rank alias) r)
  over_better alias none none over e k = rw over (λ q. ground (arith, e, q))
  over_better alias (some o) none over e k = absurd k
  over_better alias none (some r) over e k = elim (Bool-cases (suits_better r (rank alias))) [
    | inl before ↦ rw (over, before) k
    | inr behind ↦ rw (over, behind) (λ q. ground (arith, e, q))
  ]
  over_better alias (some o) (some r) over e k =
      let before : suits_better r (rank alias) ≡ true =
        unfold suits_better in ground (arith, e, k.1.1) in
      rw (over, before) k

  Agrees-better :
      (alias : String) (o : Option Entry) (r : Option Ranked)
      → (rank alias).tier ≡ (if suits t (entry alias) then size_fits else size_over_ceiling)
      → Agrees o r
      → Agrees
          (better (λ a b. by_ceiling a.1 b.1) (suits t) (entry alias) o)
          (better suits_better any_one (rank alias) r)
  Agrees-better alias o r tier k = elim (Bool-cases (suits t (entry alias))) [
    | inl fits ↦ fits_better alias o r fits (rw fits at tier) k
    | inr over ↦ over_better alias o r over (rw over at tier) k
  ]

  tight_tier :
      (max_context : ℤ) (c : ℤ × Bool)
      → roomy t max_context ≡ false
      → tier_of t max_context c ≡ size_too_large
  unfolding tier_of
  tight_tier max_context c h = ground arith

  -- A destination whose context is too small, beside the first that fits.
  tight_better :
      (alias : String) (o : Option Entry) (r : Option Ranked)
      → (rank alias).tier ≡ size_too_large
      → Agrees o r
      → Agrees o (better suits_better any_one (rank alias) r)
  tight_better alias none none e k = λ q. ground (arith, e, q)
  tight_better alias (some o) none e k = absurd k
  tight_better alias none (some r) e k = elim (Bool-cases (suits_better r (rank alias))) [
    | inl before ↦ rw before k
    | inr behind ↦ rw behind (λ q. ground (arith, e, q))
  ]
  tight_better alias (some o) (some r) e k =
      let before : suits_better r (rank alias) ≡ true =
        unfold suits_better in ground (arith, e, k.1.1) in
      rw before k

  pub sorted_agree :
      (ds : List String)
      → All (λ (alias : String). pos 0 ≤ℤ (ceiling ceilings alias).0) ds
      → Agrees
          (first_that
            (suits t)
            (sort_stable (λ a b. by_ceiling a.1 b.1) (entries ceilings (takers find t ds))))
          (first_that any_one (sort_stable suits_better (ranked find ceilings t ds)))
  unfolding entries ranked
  sorted_agree [] p = unfold sort_stable in tt
  sorted_agree (d ∷ ds) (p, ps) =
      let rest = sorted_agree ds ps in
      let o =
        first_that (suits t) (
          sort_stable (λ (a b : Entry). by_ceiling a.1 b.1)
            (entries ceilings (takers find t ds))) in
      let r = first_that any_one (sort_stable suits_better (ranked find ceilings t ds)) in
      let sorted =
        first_that-sort_stable suits_better suits_better-IsRanking any_one (rank d)
          (ranked find ceilings t ds) in
      elim (Bool-cases (serveable find d)) [
        | inr dead ↦ rw dead rest
        | inl live ↦ elim (Bool-cases (roomy t (max_context_of (find d)))) [
          | inr tight ↦
              let tier = tight_tier (max_context_of (find d)) (ceiling ceilings d) tight in
              rw (live, tight) (rw sorted (tight_better d o r tier rest))
          | inl room ↦
              let both = Agrees-better d o r (rank_tier d room p) rest in
              rw (live, room)
                (rw
                  (
                    first_that-sort_stable (λ (a b : Entry). by_ceiling a.1 b.1)
                        by_ceiling-IsRanking (suits t) (entry d)
                        (entries ceilings (takers find t ds)),
                    sorted,
                  )
                  both)
        ]
      ]
