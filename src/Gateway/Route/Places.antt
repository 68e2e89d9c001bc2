-- ===== src/Gateway/Route/Places.antt =====
-- Where a route step may send a request: internal/gateway/route.go keeps to the step's destinations.
use keera_gateway.Base.{
  ℕ, String, Bool, true, false, not, ◌&&◌, Option, none, some, List, [], ◌∷◌, ◌==◌, string_eq,
  nat_eq, contains, any, map, All, Bool-cases, ◌≡◌, refl, inl, inr, sym, ◌∙◌, text_eq_self, arith,
  if◌then◌else◌, trim_space,
}
use keera_gateway.Base.Dict.{Dict, get}
use keera_gateway.Base.Int.{ℤ}
use keera_gateway.Policy.Model.{Model}
use keera_gateway.Policy.Route.{
  Route, route_mode_header, mode_decides, mode_sizes, decides, refuses,
}
use keera_gateway.Gateway.Serve.{ServeProblem, serveable, kept_of, chat_problem, reader_problem}
use keera_gateway.Gateway.Sorting.{any-sort_stable, sort_stable}
use keera_gateway.Gateway.Size.{Ranked, sized, ranked, suits_better, estimate_tokens}
use keera_gateway.Gateway.Choice.{Reading, chose, unreadable, failed, decide}
use keera_gateway.Gateway.Choice.Offered.{decide-contains}
use keera_gateway.Gateway.Route.{
  Inputs, RouteDecision, Decided, Why, dropped, no_text, not_decided, cannot_serve, cannot_read,
  router_error, router_fell_back, no_header, many_headers, unknown_value, undecided_yet, route,
  chain, chain_from, first_of, route_fallback, sized_from, by_header, no_value, served_value,
  known_value, header_values, read_or, asked, windowed, with_texts, instructed, only_weighs,
  route_window,
}

-- The fallback, if there is one, and what the values of a header lead to are destinations.
pub record IsClosed (rt : Route) : Type 0 where
  pub fallback_in : refuses rt ≡ false → contains rt.destinations rt.fallback ≡ true
  pub values_in : (v a : String) → get rt.values v ≡ some a → contains rt.destinations a ≡ true

-- Ordering loses and adds no destination.
abbrev pub Reorders : (Route → List String → List String) → Type 0
Reorders order =
    (rt : Route) (l : List String) (a : String) → contains (order rt l) a ≡ contains l a

-- All of a list are among the names.
abbrev pub Among : List String → List String → Type 0
Among names = All (λ (a : String). contains names a ≡ true)

-- A decision that is no refusal, of a client that has not hung up, keeps to the names.
abbrev pub Keeps : List String → Bool → Decided → Type 0
Keeps names hung_up (d, some r) = Unit
Keeps names true (d, none) = Unit
Keeps names false (d, none) = (contains names d.alias ≡ true) × Among names d.chain

Among-contains :
    (names l : List String)
    → ((a : String) → contains l a ≡ true → contains names a ≡ true)
    → Among names l
unfolding contains
Among-contains names [] h = tt
Among-contains names (x ∷ xs) h =
    (h x (rw (text_eq_self x) refl), Among-contains names xs (λ a k. h a (ground (arith, k))))

module _ (find : String → Option Model) (rt : Route) (closed : IsClosed rt) where
  kept_of-contains :
      (ds : List String) (a : String) → contains (kept_of find ds) a ≡ true → contains ds a ≡ true
  unfolding kept_of contains
  kept_of-contains [] a h = h
  kept_of-contains (d ∷ ds) a h = elim (Bool-cases (serveable find d)) [
    | inl kept ↦
        let h' : contains (d ∷ kept_of find ds) a ≡ true = rw kept at h in
        elim (Bool-cases (d == a)) [
          | inl same ↦ rw same refl
          | inr other ↦ rw other (kept_of-contains ds a (rw other at h'))
        ]
    | inr away ↦ elim (Bool-cases (d == a)) [
      | inl same ↦ rw same refl
      | inr other ↦ rw other (kept_of-contains ds a (rw away at h))
    ]
  ]

  first_of-Keeps :
      (hung_up : Bool) (l : List String)
      → Among rt.destinations l
      → Keeps rt.destinations hung_up (first_of find rt l)
  unfolding first_of
  first_of-Keeps hung_up [] h = tt
  first_of-Keeps true (a ∷ l) h = tt
  first_of-Keeps false (a ∷ l) h = (h.0, h)

  route_fallback-Keeps :
      (hung_up : Bool) (d : RouteDecision)
      → Keeps rt.destinations hung_up (route_fallback find rt d)
  unfolding route_fallback
  route_fallback-Keeps hung_up d = elim (Bool-cases (refuses rt)) [
    | inl refused ↦ rw refused tt
    | inr falls ↦ rw falls (go hung_up (closed.fallback_in falls))
  ]
    where
      go :
          (hung : Bool)
          → contains rt.destinations rt.fallback ≡ true
          → Keeps rt.destinations hung (
            record d { outcome = router_fell_back; alias = rt.fallback; chain = rt.fallback ∷ [] },
            none,
          )
      go true h = tt
      go false h = (h, (h, tt))

  chain-Keeps : (i : Inputs) → Reorders i.order → Keeps rt.destinations i.hung_up (chain find rt i)
  unfolding chain
  chain-Keeps i order = go (i.order rt (kept_of find rt.destinations)) (
      Among-contains rt.destinations (i.order rt (kept_of find rt.destinations)) (λ a h.
        kept_of-contains rt.destinations a (sym (order rt (kept_of find rt.destinations) a) ∙ h)))
    where
      go :
          (l : List String)
          → Among rt.destinations l
          → Keeps rt.destinations i.hung_up (chain_from find rt l)
      go [] h = elim (Bool-cases (mode_decides rt.mode && not (refuses rt))) [
        | inl falls ↦
            rw falls (route_fallback-Keeps i.hung_up (record undecided_yet { why = some dropped }))
        | inr none_left ↦ rw none_left (first_of-Keeps i.hung_up [] tt)
      ]
      go (a ∷ l) h = first_of-Keeps i.hung_up (a ∷ l) h

  ranked-contains :
      (ceilings : Dict ℤ) (t : ℕ) (ds : List String) (a : String)
      → any (λ (r : Ranked). r.alias == a) (ranked find ceilings t ds) ≡ true
      → contains ds a ≡ true
  unfolding ranked contains
  ranked-contains ceilings t [] a h = h
  ranked-contains ceilings t (d ∷ ds) a h = elim (Bool-cases (d == a)) [
    | inl same ↦ rw same refl
    | inr other ↦ rw other (
        ranked-contains ceilings t ds a (elim (Bool-cases (serveable find d)) [
          | inl kept ↦ let h' = rw kept at h in rw other at h'
          | inr away ↦ rw away at h
        ]))
  ]

  contains-aliases :
      (l : List Ranked) (a : String)
      → contains (map (λ (r : Ranked). r.alias) l) a ≡ any (λ (r : Ranked). r.alias == a) l
  unfolding contains
  contains-aliases [] a = refl
  contains-aliases (r ∷ l) a = ground (arith, contains-aliases l a)

  sized-Among : (texts : List String) → Among rt.destinations (sized find rt texts)
  unfolding sized
  sized-Among texts =
      let l = ranked find rt.ceilings (estimate_tokens texts) rt.destinations in
      Among-contains rt.destinations (map (λ (r : Ranked). r.alias) (sort_stable suits_better l))
        (λ a h. ranked-contains rt.ceilings (estimate_tokens texts) rt.destinations a (
          sym (any-sort_stable suits_better (λ (r : Ranked). r.alias == a) l)
          ∙ (sym (contains-aliases (sort_stable suits_better l) a) ∙ h)))

  sized_from-Keeps :
      (hung_up : Bool) (texts : Option (List String))
      → Keeps rt.destinations hung_up (sized_from find rt texts)
  unfolding sized_from
  sized_from-Keeps hung_up none = tt
  sized_from-Keeps hung_up (some texts) =
      first_of-Keeps hung_up (sized find rt texts) (sized-Among texts)

  no_value-Keeps :
      (hung_up : Bool) (why : Why) → Keeps rt.destinations hung_up (no_value find rt why)
  unfolding no_value
  no_value-Keeps hung_up why = elim (Bool-cases (refuses rt)) [
    | inl refused ↦ rw refused tt
    | inr falls ↦ rw falls (route_fallback-Keeps hung_up (record undecided_yet { why = some why }))
  ]

  served_value-Keeps :
      (hung_up : Bool) (a : String) (p : Option ServeProblem)
      → contains rt.destinations a ≡ true
      → Keeps rt.destinations hung_up (served_value find rt a p)
  unfolding served_value
  served_value-Keeps true a none h = tt
  served_value-Keeps false a none h = (h, (h, tt))
  served_value-Keeps hung_up a (some p) h =
      route_fallback-Keeps hung_up (record undecided_yet { why = some (cannot_serve p) })

  known_value-Keeps :
      (hung_up : Bool) (v : String) (o : Option String)
      → get rt.values v ≡ o
      → Keeps rt.destinations hung_up (known_value find rt o)
  unfolding known_value
  known_value-Keeps hung_up v none e = no_value-Keeps hung_up unknown_value
  known_value-Keeps hung_up v (some a) e =
      served_value-Keeps hung_up a (chat_problem (find a)) (closed.values_in v a e)

  header_values-Keeps :
      (i : Inputs) (vs : List String) → Keeps rt.destinations i.hung_up (header_values find rt i vs)
  unfolding header_values
  header_values-Keeps i [] = no_value-Keeps i.hung_up no_header
  header_values-Keeps i (v ∷ []) =
      known_value-Keeps i.hung_up (i.lower_value (trim_space v))
        (get rt.values (i.lower_value (trim_space v))) refl
  header_values-Keeps i (v ∷ w ∷ vs) = no_value-Keeps i.hung_up many_headers

  read_or-Keeps :
      (i : Inputs) (d : RouteDecision) (r : Reading)
      → ((a : String) (sure : Bool) → r ≡ chose a sure → contains rt.destinations a ≡ true)
      → Keeps rt.destinations i.hung_up (read_or find rt i d r)
  unfolding read_or
  read_or-Keeps i d r h = go i.hung_up r h
    where
      fell :
          (hung : Bool)
          → Keeps rt.destinations hung (
              if hung
              then (record d { outcome = router_error }, none)
              else route_fallback find rt (record d { why = some not_decided }))
      fell true = tt
      fell false = route_fallback-Keeps false (record d { why = some not_decided })

      go :
          (hung : Bool) (r : Reading)
          → ((a : String) (sure : Bool) → r ≡ chose a sure → contains rt.destinations a ≡ true)
          → Keeps rt.destinations hung (read_or find rt (record i { hung_up = hung }) d r)
      go true (chose a sure) k = tt
      go false (chose a sure) k = (k a sure refl, (k a sure refl, tt))
      go hung unreadable k = fell hung
      go hung failed k = fell hung

  asked-Keeps :
      (i : Inputs) (offered texts : List String) (p : Option ServeProblem)
      → ((a : String) → contains offered a ≡ true → contains rt.destinations a ≡ true)
      → Keeps rt.destinations i.hung_up (asked find rt i offered texts p)
  unfolding asked
  asked-Keeps i offered texts (some p) h =
      route_fallback-Keeps i.hung_up (record undecided_yet { why = some (cannot_read p) })
  asked-Keeps i offered texts none h =
      read_or-Keeps i _
        (decide (only_weighs (find rt.model)) i.reads_logprobs (i.ask texts) offered).reading
        (λ a sure e. h a (
          decide-contains (only_weighs (find rt.model)) i.reads_logprobs (i.ask texts) offered a
            sure e))

  windowed-Keeps :
      (i : Inputs) (offered texts : List String)
      → ((a : String) → contains offered a ≡ true → contains rt.destinations a ≡ true)
      → Keeps rt.destinations i.hung_up (windowed find rt i offered texts)
  unfolding windowed
  windowed-Keeps i offered [] h =
      route_fallback-Keeps i.hung_up (record undecided_yet { why = some no_text })
  windowed-Keeps i offered (t ∷ texts) h =
      asked-Keeps i offered (t ∷ texts) (reader_problem (find rt.model) true) h

  with_texts-Keeps :
      (i : Inputs) (offered : List String) (texts : Option (List String))
      → ((a : String) → contains offered a ≡ true → contains rt.destinations a ≡ true)
      → Keeps rt.destinations i.hung_up (with_texts find rt i offered texts)
  unfolding with_texts
  with_texts-Keeps i offered none h = tt
  with_texts-Keeps i offered (some texts) h = windowed-Keeps i offered (route_window texts) h

  instructed-Keeps :
      (i : Inputs) (offered : List String)
      → ((a : String) → contains offered a ≡ true → contains rt.destinations a ≡ true)
      → Keeps rt.destinations i.hung_up (instructed find rt i offered)
  unfolding instructed contains
  instructed-Keeps i [] h = with_texts-Keeps i [] i.texts h
  instructed-Keeps i (a ∷ []) h = go i.hung_up (h a (rw (text_eq_self a) refl))
    where
      go :
          (hung : Bool)
          → contains rt.destinations a ≡ true
          → Keeps rt.destinations hung (record undecided_yet { alias = a; chain = a ∷ [] }, none)
      go true k = tt
      go false k = (k, (k, tt))
  instructed-Keeps i (a ∷ b ∷ rest) h = with_texts-Keeps i (a ∷ b ∷ rest) i.texts h

  pub route-Keeps :
      (i : Inputs) → Reorders i.order → Keeps rt.destinations i.hung_up (route find rt i)
  unfolding route by_header
  route-Keeps i order = elim (Bool-cases (mode_sizes rt.mode)) [
    | inl sizes ↦ rw sizes (sized_from-Keeps i.hung_up i.texts)
    | inr other ↦ elim (Bool-cases (rt.mode == route_mode_header)) [
      | inl header ↦ rw (other, header) (header_values-Keeps i (i.values rt.header))
      | inr neither ↦ elim (Bool-cases (decides rt)) [
        | inl asks ↦
            rw (other, neither, asks)
              (instructed-Keeps i (kept_of find rt.destinations) (kept_of-contains rt.destinations))
        | inr tries ↦ rw (other, neither, tries) (chain-Keeps i order)
      ]
    ]
  ]
