-- ===== src/Gateway/Size/Bands.antt =====
-- The bands that the check of a size step shows, against where its requests go:
-- internal/gateway/size.go.
use keera_gateway.Base.{
  ℕ, ◌<◌, String, Bool, not, ◌&&◌, ◌||◌, Option, none, some, List, [], ◌∷◌, nat_eq, string_eq, leb,
  map, All, if◌then◌else◌, ◌≡◌, refl, sym, ap, ◌∙◌, ◌⊎◌, inl, inr, Bool-cases, arith,
}
use keera_gateway.Base.Dict.{Dict}
use keera_gateway.Base.Int.{ℤ, pos, negsuc, ltb_ℤ, leb_ℤ, eqb_ℤ, ◌≤ℤ◌}
use keera_gateway.Policy.Model.{Model}
use keera_gateway.Policy.Route.{Route, ceiling}
use keera_gateway.Gateway.Serve.{serveable}
use keera_gateway.Gateway.Sorting.{sort_stable, first_that, All-sort_stable}
use keera_gateway.Gateway.Size.{
  Ranked, SizeBand, Entry, by_ceiling, suits_better, ranked, sized, estimate_tokens, entries,
  bands_from, size_bands, max_context_of,
}
use keera_gateway.Gateway.Size.Agreement.{suits, roomy, takers, Agrees, any_one, sorted_agree}

-- A band that a request of so many tokens falls in.
abbrev pub holds : ℕ → SizeBand → Bool
holds t b =
    not b.dead
    && (ltb_ℤ b.from (pos t) || eqb_ℤ b.from (pos 0))
    && (eqb_ℤ b.to (pos 0) || leb_ℤ (pos t) b.to)

-- The alias of the first band that holds it.
abbrev pub first_holding : ℕ → List SizeBand → Option String
first_holding t [] = none
first_holding t (b ∷ bands) =
    let later = first_holding t bands in if holds t b then some b.alias else later

abbrev pub head : List String → Option String
head [] = none
head (a ∷ rest) = some a

abbrev alias_of : Option Entry → Option String
alias_of none = none
alias_of (some e) = some e.0

-- The bands say which entry suits.
first_holding-bands :
    (t f : ℕ) (es : List Entry)
    → All (λ (e : Entry). pos 0 ≤ℤ e.1) es
    → (f < t) ⊎ (f ≡ 0)
    → first_holding t (bands_from (pos f) es) ≡ alias_of (first_that (suits t) es)
unfolding bands_from
first_holding-bands t f [] h low = refl
first_holding-bands t f ((alias, negsuc c) ∷ es) (p, h) low = absurd (omega arith)
first_holding-bands t f ((alias, pos c) ∷ es) (p, h) low = elim (Bool-cases (leb c f)) [
  | inl dead ↦ ground (arith, first_holding-bands t f es h low)
  | inr live ↦ elim (Bool-cases (leb t c)) [
    | inl here ↦ ground arith
    | inr above ↦ ground (arith, first_holding-bands t c es h (inl (ground arith)))
  ]
]

abbrev ranked_alias : Option Ranked → Option String
ranked_alias none = none
ranked_alias (some r) = some r.alias

-- The alias in front of a list of ranked destinations.
head-first_that :
    (l : List Ranked) → head (map (λ (r : Ranked). r.alias) l) ≡ ranked_alias (first_that any_one l)
head-first_that [] = refl
head-first_that (r ∷ l) = refl

entries-nonneg :
    (ceilings : Dict ℤ) (ds : List String)
    → All (λ (alias : String). pos 0 ≤ℤ (ceiling ceilings alias).0) ds
    → All (λ (e : Entry). pos 0 ≤ℤ e.1) (entries ceilings ds)
unfolding entries
entries-nonneg ceilings [] h = tt
entries-nonneg ceilings (d ∷ ds) (h, hs) = (h, entries-nonneg ceilings ds hs)

takers-nonneg :
    (find : String → Option Model) (ceilings : Dict ℤ) (t : ℕ) (ds : List String)
    → All (λ (alias : String). pos 0 ≤ℤ (ceiling ceilings alias).0) ds
    → All (λ (alias : String). pos 0 ≤ℤ (ceiling ceilings alias).0) (takers find t ds)
takers-nonneg find ceilings t [] h = tt
takers-nonneg find ceilings t (d ∷ ds) (h, hs) =
    let rest = takers-nonneg find ceilings t ds hs in
    elim (Bool-cases (serveable find d && roomy t (max_context_of (find d)))) [
      | inl takes ↦ rw takes (h, rest)
      | inr passes ↦ rw passes rest
    ]

agreed_alias :
    (o : Option Entry) (r : Option Ranked) (a : String)
    → Agrees o r
    → alias_of o ≡ some a
    → ranked_alias r ≡ some a
agreed_alias none r a k e = cc e
agreed_alias (some o) none a k e = absurd k
agreed_alias (some o) (some r) a k e = ap some k.0 ∙ e

-- Where no ceiling is negative: the first choice for a request is the destination whose band is the
-- first to hold it, if one does, of the bands that the step's check shows for those destinations that
-- can be served and whose context holds the request.
pub sized-size_bands :
    (find : String → Option Model) (rt : Route) (texts : List String) (a : String)
    → All (λ (alias : String). pos 0 ≤ℤ (ceiling rt.ceilings alias).0) rt.destinations
    → let t = estimate_tokens texts in
      first_holding t (size_bands rt.ceilings (takers find t rt.destinations)) ≡ some a
      → head (sized find rt texts) ≡ some a
unfolding sized size_bands
sized-size_bands find rt texts a p first =
    let t = estimate_tokens texts in
    let ds = takers find t rt.destinations in
    let by_limit = λ (x y : Entry). by_ceiling x.1 y.1 in
    let es = sort_stable by_limit (entries rt.ceilings ds) in
    let nonneg =
      All-sort_stable by_limit (λ (e : Entry). pos 0 ≤ℤ e.1) (entries rt.ceilings ds)
        (entries-nonneg rt.ceilings ds (takers-nonneg find rt.ceilings t rt.destinations p)) in
    let suiting = sym (first_holding-bands t 0 es nonneg (inr refl)) ∙ first in
    let l = sort_stable suits_better (ranked find rt.ceilings t rt.destinations) in
    head-first_that l
    ∙ agreed_alias (first_that (suits t) es) (first_that any_one l) a
        (sorted_agree find rt.ceilings t rt.destinations p) suiting
