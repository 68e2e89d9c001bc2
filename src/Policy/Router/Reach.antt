-- ===== src/Policy/Router/Reach.antt =====
-- What a router reaches, as a question about its steps, and who may call it.
use keera_gateway.Base.{
  String, Bool, true, false, Option, none, some, List, [], ◌∷◌, ◌++◌, ◌&&◌, ◌||◌, ◌==◌, string_eq,
  not, any, contains, contains-append, Bool-cases, ◌≡◌, refl, ◌∙◌, inl, inr, arith, text_eq_iff,
  if◌then◌else◌,
}
use keera_gateway.Policy.Model.{Model}
use keera_gateway.Policy.AllowList.{allows}
use keera_gateway.Policy.Resolve.{Resolved, is_subscription}
use keera_gateway.Policy.Route.{Route, route_reads_with}
use keera_gateway.Policy.Router.{
  Step, fields, branches_of, branch_at, is_absent, step_model, step_route, steps, Router, Branches,
  add_new, add_destinations, reaches_from, reaches, routes, add_readers, reads_with, located,
  all_located, restricted, may_call_router,
}

-- A destination of these without a branch of its own.
abbrev pub has_end : Branches → List String → String → Bool
has_end branches [] a = false
has_end branches (d ∷ ds) a = (is_absent (branch_at branches d) && d == a) || has_end branches ds a

-- A step that sends requests to the model itself.
abbrev pub sends_to : String → Step → Bool
sends_to a s =
    if (fields s).kind == step_model
    then (fields s).ref == a
    else if (fields s).kind == step_route
    then has_end (branches_of s) (fields s).destinations a
    else false

contains-add_new :
    (out : List String) (x a : String) → contains (add_new out x) a ≡ (contains out a || x == a)
unfolding contains
contains-add_new out x a = elim (Bool-cases (contains out x)) [
  | inl old ↦ rw old (ground (arith, text_eq_iff x a))
  | inr new ↦ rw (new, contains-append) (ground arith)
]

contains-add_destinations :
    (b : Branches) (ds out : List String) (a : String)
    → contains (add_destinations b ds out) a ≡ (contains out a || has_end b ds a)
unfolding add_destinations
contains-add_destinations b [] out a = ground arith
contains-add_destinations b (d ∷ ds) out a = elim (Bool-cases (is_absent (branch_at b d))) [
  | inl end ↦
      rw end (contains-add_destinations b ds (add_new out d) a ∙ rw contains-add_new (ground arith))
  | inr goes_on ↦ rw goes_on (contains-add_destinations b ds out a)
]

contains-reaches_from :
    (l : List Step) (out : List String) (a : String)
    → contains (reaches_from l out) a ≡ (contains out a || any (sends_to a) l)
unfolding reaches_from
contains-reaches_from [] out a = ground arith
contains-reaches_from (s ∷ l) out a = elim (Bool-cases ((fields s).kind == step_model)) [
  | inl model ↦
      rw model (
        contains-reaches_from l (add_new out (fields s).ref) a ∙ rw contains-add_new (ground arith))
  | inr other ↦ elim (Bool-cases ((fields s).kind == step_route)) [
    | inl route ↦
        rw (other, route)
          (contains-reaches_from l (add_destinations (branches_of s) (fields s).destinations out) a
            ∙ rw contains-add_destinations (ground arith))
    | inr neither ↦ rw (other, neither) (contains-reaches_from l out a)
  ]
]

-- `Reaches` lists a model exactly when some step of the router sends to it: a model step that names
-- it, or a route step that has it as a destination without a branch.
pub contains-reaches :
    (p : Router) (a : String) → contains (reaches p) a ≡ any (sends_to a) (steps p.start)
unfolding reaches contains
contains-reaches p a = contains-reaches_from (steps p.start) [] a

-- A route step that decides with the model.
abbrev pub decides_with : String → Route → Bool
decides_with a rt = route_reads_with rt == a && not (a == "")

one_more :
    (m : String) (out : List String) (a : String) (rest : Bool)
    → (m == "") ≡ false
    → ((contains out a || contains (m ∷ []) a) || rest)
      ≡ (contains out a || ((m == a && not (a == "")) || rest))
unfolding contains
one_more m out a rest h = ground (arith, text_eq_iff m a)

old_one :
    (m : String) (out : List String) (a : String) (rest : Bool)
    → (not (m == "") && not (contains out m)) ≡ false
    → (contains out a || rest) ≡ (contains out a || ((m == a && not (a == "")) || rest))
old_one m out a rest h = elim (Bool-cases (m == a)) [
  | inr other ↦ rw other refl
  | inl same ↦
      let e : m ≡ a = (text_eq_iff m a).0 same in
      let known : (not (a == "") && not (contains out a)) ≡ false = rw e at h in
      rw same (ground arith)
]

contains-add_readers :
    (rts : List Route) (out : List String) (a : String)
    → contains (add_readers rts out) a ≡ (contains out a || any (decides_with a) rts)
unfolding add_readers
contains-add_readers [] out a = ground arith
contains-add_readers (rt ∷ rts) out a =
    elim (Bool-cases
      (not (route_reads_with rt == "") && not (contains out (route_reads_with rt)))) [
        | inl new ↦ rw new (
            contains-add_readers rts (out ++ route_reads_with rt ∷ []) a
            ∙ rw contains-append
                (one_more (route_reads_with rt) out a (any (decides_with a) rts) (ground arith)))
        | inr old ↦ rw old (
            contains-add_readers rts out a
            ∙ old_one (route_reads_with rt) out a (any (decides_with a) rts) old)
      ]

contains-reads_with :
    (p : Router) (a : String)
    → contains (reads_with p) a
      ≡ (any (sends_to a) (steps p.start) || any (decides_with a) (routes p))
unfolding reads_with
contains-reads_with p a = contains-add_readers (routes p) (reaches p) a ∙ rw contains-reaches refl

located-eq-some :
    (l : List String) (o : Option Model)
    → located (some l) o ≡ true
    → (m : Model) × (o ≡ some m) × (contains l m.location ≡ true)
unfolding located allows
located-eq-some l none h = absurd (ground arith)
located-eq-some l (some m) h = (m, refl, h)

all_located-contains :
    (l : List String) (find : String → Option Model) (names : List String) (a : String)
    → all_located (some l) find names ≡ true
    → contains names a ≡ true
    → (m : Model) × (find a ≡ some m) × (contains l m.location ≡ true)
unfolding all_located contains
all_located-contains l find [] a h k = absurd (ground arith)
all_located-contains l find (n ∷ names) a h k = elim (Bool-cases (n == a)) [
  | inr other ↦ all_located-contains l find names a (ground arith) (ground arith)
  | inl same ↦
      let e : n ≡ a = (text_eq_iff n a).0 same in
      let found : located (some l) (find n) ≡ true = ground arith in
      located-eq-some l (find a) (rw e at found)
]

-- A key that may call a router is allowed its name and is no subscription key. If its locations are
-- limited, every model that the router may send to or decide with is known and runs in one of
-- them.
pub may_call_router-located :
    (r : Resolved) (p : Router) (find : String → Option Model) (l : List String) (a : String)
    → may_call_router r p find ≡ true
    → r.allowed_locations ≡ some l
    → (any (sends_to a) (steps p.start) || any (decides_with a) (routes p)) ≡ true
    → (allows r.allowed_models p.alias ≡ true)
      × (is_subscription r.key ≡ false)
      × ((m : Model) × (find a ≡ some m) × (contains l m.location ≡ true))
unfolding may_call_router restricted
may_call_router-located r p find l a h e k =
    let called : all_located (some l) find (reads_with p) ≡ true = ground arith in
    (
      ground arith,
      ground arith,
      all_located-contains l find (reads_with p) a called (contains-reads_with p a ∙ k),
    )
