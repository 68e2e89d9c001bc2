-- ===== src/Policy/Router/Problems/Answers.antt =====
-- Who answers through a router that passes its checks.
use keera_gateway.Base.{
  ℕ, String, Bool, true, false, Option, none, some, List, [], ◌∷◌, ◌==◌, string_eq, not, any, All,
  length, nat_eq, contains, Bool-cases, ◌≡◌, ◌≢◌, refl, ap, inl, inr, arith, text_eq_iff,
  if◌then◌else◌,
}
use keera_gateway.Base.Dict.{get}
use keera_gateway.Policy.Model.{Model, kind_chat}
use keera_gateway.Policy.Router.{
  Step, Branches, fields, branches_of, step_model, step_route, step_filter, steps, step_kinds,
  StepFields, Router, RouterRefs, reaches,
}
use keera_gateway.Policy.Router.Reach.{has_end, sends_to, contains-reaches}
use keera_gateway.Policy.Router.Problems.{
  or_problem, refused_as, answerer_problem, model_problem, cannot_answer, destinations_problem,
  route_problem, route_fields_problem, shape_problem, use_problem, step_problem, problem,
  unknown_kind, bad_mode, has_ceilings, has_header, no_model, no_instruction, prompt_too_long,
  no_destinations, leftover_problem,
}
use keera_gateway.Policy.Route.{route_mode_valid}
use keera_gateway.Policy.Router.Problems.Checked.{IsSound, problem-eq-none_iff}

-- A chat model of the organisation that no subscription pays for.
pub record CanAnswer (refs : RouterRefs) (alias : String) : Type 0 where
  pub model : Model
  pub found : get refs.models alias ≡ some model
  pub chat : model.kind ≡ kind_chat
  pub paid : model.subscription ≡ false

module _ (refs : RouterRefs) where
  model_answers :
      (alias : String) (o : Option Model)
      → get refs.models alias ≡ o
      → model_problem o ≡ none
      → CanAnswer refs alias
  unfolding model_problem
  model_answers alias none e h = cc
  model_answers alias (some m) e h = record {
    model = m;
    found = e;
    chat = ground (arith, text_eq_iff m.kind kind_chat);
    paid = ground arith;
  }

  answers : (alias : String) → answerer_problem alias refs ≡ none → CanAnswer refs alias
  unfolding answerer_problem
  answers alias h = model_answers alias (get refs.models alias) refl h

  pub either_none : {A : Type 0} (p q : Option A) → or_problem p q ≡ none → (p ≡ none) × (q ≡ none)
  either_none none q h = (refl, h)
  either_none (some a) q h = cc

  pub refused_none : {A B : Type 0} (f : A → B) (o : Option A) → refused_as f o ≡ none → o ≡ none
  refused_none f none h = refl
  refused_none f (some a) h = cc

  destinations_answer :
      (ds seen : List String) (a : String)
      → destinations_problem refs seen ds ≡ none
      → contains ds a ≡ true
      → CanAnswer refs a
  unfolding destinations_problem contains
  destinations_answer [] seen a h k = absurd (ground arith)
  destinations_answer (d ∷ ds) seen a h k = elim (Bool-cases (contains seen d)) [
    | inl again ↦ cc (rw again at h)
    | inr fresh ↦
        let (own, rest) =
          either_none (refused_as cannot_answer (answerer_problem d refs))
            (destinations_problem refs (d ∷ seen) ds) (rw fresh at h) in
        elim (Bool-cases (d == a)) [
          | inl same ↦
              let e : d ≡ a = (text_eq_iff d a).0 same in
              rw e at (answers d (refused_none cannot_answer (answerer_problem d refs) own))
          | inr other ↦ destinations_answer ds (d ∷ seen) a rest (ground arith)
        ]
  ]

  pub guard_none :
      {A : Type 0} (b : Bool) (p : A) (q : Option A)
      → (if b then some p else q) ≡ none
      → (b ≡ false) × (q ≡ none)
  guard_none true p q h = cc
  guard_none false p q h = (refl, h)

  not_filter :
      (k k' : String) → (k == k') ≡ true → (k' == step_filter) ≡ false → (k == step_filter) ≡ false
  not_filter k k' h other = let e : k ≡ k' = (text_eq_iff k k').0 h in rw e other

  not_route : (k : String) → (k == step_model) ≡ true → (k == step_route) ≡ false
  not_route k h = let e : k ≡ step_model = (text_eq_iff k step_model).0 h in rw e refl

  pub use_none :
      (s : Step)
      → step_problem refs s ≡ none
      → (shape_problem s ≡ none) × (use_problem refs s ≡ none)
  unfolding step_problem
  use_none s h =
      either_none (shape_problem s) (use_problem refs s)
        (guard_none (not (contains step_kinds (fields s).kind)) unknown_kind
          (or_problem (shape_problem s) (use_problem refs s)) h).1

  model_none :
      (s : Step)
      → use_problem refs s ≡ none
      → ((fields s).kind == step_model) ≡ true
      → answerer_problem (fields s).ref refs ≡ none
  unfolding use_problem
  model_none s h k =
      let a = not_filter (fields s).kind step_model k refl in
      let b = not_route (fields s).kind k in
      refused_none cannot_answer (answerer_problem (fields s).ref refs) (rw (a, b, k) at h)

  -- What is known of a route step without a problem.
  pub record IsRoute (s : Step) : Type 0 where
    pub some_destination : (fields s).destinations ≢ []
    pub destinations : destinations_problem refs [] (fields s).destinations ≡ none

  clash : (n : ℕ) → (n == 0) ≡ false → n ≢ 0
  clash n h e = absurd (ground arith)

  has_destination : (f : StepFields) → route_fields_problem f ≡ none → f.destinations ≢ []
  unfolding route_fields_problem
  has_destination f h e =
      let a = (guard_none _ has_ceilings _ h).1 in
      let b = (guard_none _ has_header _ a).1 in
      let c = (guard_none _ no_model _ b).1 in
      let d = (guard_none _ no_instruction _ c).1 in
      let g = (guard_none _ prompt_too_long _ d).1 in
      clash (length f.destinations) (guard_none _ no_destinations _ g).0 (ap length e)

  route_problem-IsRoute :
      (s : Step) → route_problem refs (fields s) (branches_of s) ≡ none → IsRoute s
  unfolding route_problem
  route_problem-IsRoute s h =
      let f = fields s in
      let known = (guard_none (not (route_mode_valid f.mode)) bad_mode _ h).1 in
      let rest = (either_none (leftover_problem f) _ known).1 in
      let (own, rest') = either_none (route_fields_problem f) _ rest in
      let dests = (either_none (destinations_problem refs [] f.destinations) _ rest').0 in
      record { some_destination = has_destination f own; destinations = dests }

  pub use_problem-IsRoute :
      (s : Step) → use_problem refs s ≡ none → ((fields s).kind == step_route) ≡ true → IsRoute s
  unfolding use_problem
  use_problem-IsRoute s h k =
      let a = not_filter (fields s).kind step_route k refl in
      route_problem-IsRoute s (rw (a, k) at h)

  has_end-contains :
      (b : Branches) (ds : List String) (a : String) → has_end b ds a ≡ true → contains ds a ≡ true
  unfolding contains
  has_end-contains b [] a h = h
  has_end-contains b (d ∷ ds) a h = elim (Bool-cases (d == a)) [
    | inl same ↦ rw same refl
    | inr other ↦ rw other (has_end-contains b ds a (ground arith))
  ]

  step_answers : (s : Step) (a : String) → IsSound refs s → sends_to a s ≡ true → CanAnswer refs a
  step_answers s a (_, sound) h =
      let use' = (use_none s sound).1 in
      elim (Bool-cases ((fields s).kind == step_model)) [
        | inl model ↦
            let same : ((fields s).ref == a) ≡ true = rw model at h in
            let e : (fields s).ref ≡ a = (text_eq_iff (fields s).ref a).0 same in
            rw e at (answers (fields s).ref (model_none s use' model))
        | inr other ↦ elim (Bool-cases ((fields s).kind == step_route)) [
          | inr neither ↦ let no_one : false ≡ true = rw (other, neither) at h in cc no_one
          | inl route ↦
              let sent : has_end (branches_of s) (fields s).destinations a ≡ true =
                rw (other, route) at h in
              destinations_answer (fields s).destinations [] a
                (use_problem-IsRoute s use' route).destinations
                (has_end-contains (branches_of s) (fields s).destinations a sent)
        ]
      ]

  steps_answer :
      (l : List Step) (a : String)
      → All (IsSound refs) l
      → any (sends_to a) l ≡ true
      → CanAnswer refs a
  steps_answer [] a h k = absurd (ground arith)
  steps_answer (s ∷ l) a (h, hs) k = elim (Bool-cases (sends_to a s)) [
    | inl here ↦ step_answers s a h here
    | inr later ↦ steps_answer l a hs (rw later at k)
  ]

-- Every model that a router without a problem reaches is one of the organisation's, is a chat model,
-- and is not paid by a person's own subscription.
pub reaches-CanAnswer :
    (p : Router) (refs : RouterRefs) (a : String)
    → problem p refs ≡ none
    → contains (reaches p) a ≡ true
    → CanAnswer refs a
reaches-CanAnswer p refs a h k =
    let (_, _, _, _, sound) = (problem-eq-none_iff p refs).0 h in
    steps_answer refs (steps p.start) a sound (rw contains-reaches at k)
