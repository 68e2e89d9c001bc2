-- ===== src/Gateway/Size.antt =====
-- Size steps of internal/gateway/size.go, with the estimates of tokens.go: a request is placed by
-- how much text is in it. `find` is the registry's lookup in the organisation.
pub mod Agreement
pub mod Bands
use keera_gateway.Base.{
  ℕ, ◌+◌, ◌-◌, ◌*◌, ◌/◌, ◌^◌, String, Bool, true, false, not, ◌&&◌, ◌||◌, Option, none, some, List,
  [], ◌∷◌, ◌==◌, string_eq, nat_eq, ltb, leb, length, bytes, map, if◌then◌else◌,
}
use keera_gateway.Base.Dict.{Dict, get}
use keera_gateway.Base.Int.{ℤ, pos, ltb_ℤ, leb_ℤ, eqb_ℤ}
use keera_gateway.Policy.Model.{Model, Kind, kind_chat}
use keera_gateway.Policy.Route.{Route, ceiling}
use keera_gateway.Gateway.Serve.{serveable}
use keera_gateway.Gateway.Sorting.{sort_stable}

unfoldable pub total_bytes : List String → ℕ
total_bytes [] = 0
total_bytes (t ∷ texts) = length (bytes t) + total_bytes texts

unfoldable pub longest : List String → ℕ
longest [] = 0
longest (t ∷ texts) =
    let rest = longest texts in if ltb rest (length (bytes t)) then length (bytes t) else rest

-- `estimateTokens`
unfoldable pub estimate_tokens : List String → ℕ
unfolding total_bytes
estimate_tokens texts = total_bytes texts / 3

-- `leastTokens`
unfoldable pub least_tokens : List String → Kind → ℕ
unfolding total_bytes longest
least_tokens texts kind = (if kind == kind_chat then total_bytes texts else longest texts) / 5

-- `sizeTier`, best first
abbrev pub SizeTier : Type 0
SizeTier = ℕ

abbrev pub size_fits : SizeTier
size_fits = 0

abbrev pub size_over_ceiling : SizeTier
size_over_ceiling = 1

abbrev pub size_too_large : SizeTier
size_too_large = 2

pub record Ranked : Type 0 where
  pub alias : String
  pub tier : SizeTier
  pub ceiling : ℤ

unfoldable pub max_context_of : Option Model → ℤ
max_context_of none = pos 0
max_context_of (some m) = m.max_context

-- How well a destination suits a request of so many tokens
unfoldable pub tier_of : ℕ → ℤ → ℤ × Bool → SizeTier
tier_of tokens max_context (limit, bounded) =
    if ltb_ℤ (pos 0) max_context && ltb_ℤ max_context (pos tokens)
    then size_too_large
    else if bounded && ltb_ℤ limit (pos tokens)
    then size_over_ceiling
    else size_fits

-- `math.MaxInt` for no ceiling
unfoldable pub limit_of : ℤ → ℤ
limit_of a = if eqb_ℤ a (pos 0) then pos (2 ^ 63 - 1) else a

-- `byCeiling`, as whether the first goes before the second
unfoldable pub by_ceiling : ℤ → ℤ → Bool
unfolding limit_of
by_ceiling a b = ltb_ℤ (limit_of a) (limit_of b)

-- The order of `sized`: the tier first, then the ceiling
unfoldable pub suits_better : Ranked → Ranked → Bool
unfolding by_ceiling
suits_better a b = ltb a.tier b.tier || (a.tier == b.tier && by_ceiling a.ceiling b.ceiling)

-- The loop of `sized` over the destinations
unfoldable pub ranked : (String → Option Model) → Dict ℤ → ℕ → List String → List Ranked
unfolding tier_of max_context_of
ranked find ceilings tokens [] = []
ranked find ceilings tokens (alias ∷ rest) =
    let more = ranked find ceilings tokens rest in
    let c = ceiling ceilings alias in
    if serveable find alias
    then record {
      alias = alias;
      tier = tier_of tokens (max_context_of (find alias)) c;
      ceiling = c.0;
    }
      ∷ more
    else more

-- The chain of `sized`, of a request with these texts
unfoldable pub sized : (String → Option Model) → Route → List String → List String
unfolding ranked suits_better estimate_tokens
sized find rt texts =
    map (λ (r : Ranked). r.alias)
      (sort_stable suits_better (ranked find rt.ceilings (estimate_tokens texts) rt.destinations))

pub record SizeBand : Type 0 where
  pub alias : String
  pub from : ℤ
  pub to : ℤ
  pub dead : Bool

-- An alias with its ceiling
abbrev pub Entry : Type 0
Entry = String × ℤ

pub entries : Dict ℤ → List String → List Entry
entries ceilings [] = []
entries ceilings (alias ∷ rest) = (alias, (ceiling ceilings alias).0) ∷ entries ceilings rest

bands_from : ℤ → List Entry → List SizeBand
bands_from floor [] = []
bands_from floor ((alias, c) ∷ rest) =
    let dead = ltb_ℤ (pos 0) c && leb_ℤ c floor in
    let next = if not dead && ltb_ℤ (pos 0) c then c else floor in
    record { alias = alias; from = floor; to = c; dead = dead } ∷ bands_from next rest

-- `sizeBands`
unfoldable pub size_bands : Dict ℤ → List String → List SizeBand
unfolding entries bands_from by_ceiling
size_bands ceilings aliases =
    bands_from (pos 0) (sort_stable (λ a b. by_ceiling a.1 b.1) (entries ceilings aliases))

pub data SizeWarning : Type 0 where
  never_first : String → SizeWarning
  above_context : String → SizeWarning
  one_destination : SizeWarning

above : Option Model → ℤ × Bool → Bool
above none c = false
above (some m) (limit, bounded) =
    bounded && ltb_ℤ (pos 0) m.max_context && ltb_ℤ m.max_context limit

band_warnings : Dict ℤ → Dict Model → SizeBand → List SizeWarning → List SizeWarning
band_warnings ceilings models b rest =
    let more =
      if above (get models b.alias) (ceiling ceilings b.alias)
      then above_context b.alias ∷ rest
      else rest in
    if b.dead then never_first b.alias ∷ more else more

live_bands : List SizeBand → ℕ
live_bands [] = 0
live_bands (b ∷ bands) = let rest = live_bands bands in if b.dead then rest else rest + 1

-- `sizeWarnings`
unfoldable pub size_warnings :
    Dict ℤ → Dict Model → List SizeBand → List SizeWarning → List SizeWarning
unfolding band_warnings above
size_warnings ceilings models [] last = last
size_warnings ceilings models (b ∷ bands) last =
    band_warnings ceilings models b (size_warnings ceilings models bands last)

-- `sizeWarnings` of all bands
unfoldable pub all_size_warnings : Dict ℤ → Dict Model → List SizeBand → List SizeWarning
unfolding size_warnings live_bands
all_size_warnings ceilings models bands =
    size_warnings ceilings models bands
      (if leb (live_bands bands) 1 then one_destination ∷ [] else [])
