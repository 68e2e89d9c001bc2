-- ===== src/Gateway/Walk/Closed.antt =====
-- A route step that passes the checks of internal/policy/router.go leads only to its destinations.
use keera_gateway.Base.{
  String, true, false, not, ◌&&◌, ◌||◌, none, some, List, [], ◌∷◌, ◌==◌, string_eq, nat_eq, length,
  contains, Bool-cases, ◌≡◌, inl, inr, arith, if◌then◌else◌,
}
use keera_gateway.Base.Dict.{Dict, get}
use keera_gateway.Policy.Names.{valid_name}
use keera_gateway.Policy.Route.{route_mode_header, route_mode_valid, refuses, mode_sizes}
use keera_gateway.Policy.Router.{
  Router, RouterRefs, Step, StepFields, Branches, fields, branches_of, route_of, step_route,
  step_filter,
}
use keera_gateway.Policy.Router.Problems.{
  route_problem, route_fields_problem, header_problem, values_problem, leftover_problem,
  destinations_problem, use_problem, has_ceilings, has_header, no_model, no_instruction,
  prompt_too_long, no_destinations, too_many_destinations, bad_fallback, ceiling_problem, bad_mode,
  bad_value, value_goes_elsewhere, no_header, bad_header, credential_header, no_values,
  too_many_values,
}
use keera_gateway.Policy.Router.Problems.Answers.{guard_none, either_none}
use keera_gateway.Gateway.Route.Places.{IsClosed}

module _ (refs : RouterRefs) where
  value_in :
      (ds : List String) (values : Dict String) (v a : String)
      → values_problem ds values ≡ none
      → get values v ≡ some a
      → contains ds a ≡ true
  unfolding values_problem get
  value_in ds [] v a h e = cc e
  value_in ds ((u, d) ∷ values) v a h e =
      let h' = (guard_none refs (not (valid_name u 32)) bad_value _ h).1 in
      let (inside, rest) =
        guard_none refs (not (contains ds d)) value_goes_elsewhere (values_problem ds values) h' in
      elim (Bool-cases (u == v)) [
        | inl here ↦ let same : d ≡ a = cc (rw here at e) in rw (← same) (ground arith)
        | inr away ↦ value_in ds values v a rest (rw away at e)
      ]

  fields_checked :
      (f : StepFields)
      → route_fields_problem f ≡ none
      → (((not (f.header == "") || not (length f.values == 0)) && not (f.mode == route_mode_header))
          ≡ false)
        × ((not (f.fallback == "") && not (contains f.destinations f.fallback)) ≡ false)
  unfolding route_fields_problem
  fields_checked f h =
      let h1 = (guard_none refs _ has_ceilings _ h).1 in
      let (header, h2) = guard_none refs _ has_header _ h1 in
      let h3 = (guard_none refs _ no_model _ h2).1 in
      let h4 = (guard_none refs _ no_instruction _ h3).1 in
      let h5 = (guard_none refs _ prompt_too_long _ h4).1 in
      let h6 = (guard_none refs _ no_destinations _ h5).1 in
      let h7 = (guard_none refs _ too_many_destinations _ h6).1 in
      (header, (guard_none refs _ bad_fallback _ h7).0)

  header_checked :
      (f : StepFields) → header_problem f ≡ none → values_problem f.destinations f.values ≡ none
  unfolding header_problem
  header_checked f h =
      let h1 = (guard_none refs _ no_header _ h).1 in
      let h2 = (guard_none refs _ bad_header _ h1).1 in
      let h3 = (guard_none refs _ credential_header _ h2).1 in
      let h4 = (guard_none refs _ no_values _ h3).1 in
      let h5 = (guard_none refs _ too_many_values _ h4).1 in
      (either_none refs (values_problem f.destinations f.values) _ h5).0

  no_values_there :
      (values : Dict String) (v a : String) (ds : List String)
      → (length values == 0) ≡ true
      → get values v ≡ some a
      → contains ds a ≡ true
  unfolding get
  no_values_there [] v a ds h e = cc e
  no_values_there (x ∷ values) v a ds h e = absurd (ground arith)

  -- A checked route step, as the route that the gateway makes of it.
  pub route_problem-IsClosed :
      (p : Router) (f : StepFields) (bs : Branches)
      → route_problem refs f bs ≡ none
      → IsClosed (route_of p f)
  unfolding route_problem route_of refuses
  route_problem-IsClosed p f bs h =
      let known = (guard_none refs (not (route_mode_valid f.mode)) bad_mode _ h).1 in
      let rest = (either_none refs (leftover_problem f) _ known).1 in
      let (own, rest') = either_none refs (route_fields_problem f) _ rest in
      let rest'' = (either_none refs (destinations_problem refs [] f.destinations) _ rest').1 in
      let last =
        (either_none refs (if mode_sizes f.mode then ceiling_problem f else none) _ rest'').1 in
      let header =
        (either_none refs (if f.mode == route_mode_header then header_problem f else none) _
          last).0 in
      let (only, fallback) = fields_checked f own in
      record {
        fallback_in = λ falls. ground (arith, fallback, falls);
        values_in = λ v a e. elim (Bool-cases (f.mode == route_mode_header)) [
          | inl mode ↦ value_in f.destinations f.values v a (header_checked f (rw mode at header)) e
          | inr other ↦ no_values_there f.values v a f.destinations (ground arith) e
        ];
      }

  pub use_problem-IsClosed :
      (p : Router) (s : Step)
      → use_problem refs s ≡ none
      → ((fields s).kind == step_route) ≡ true
      → ((fields s).kind == step_filter) ≡ false
      → IsClosed (route_of p (fields s))
  unfolding use_problem
  use_problem-IsClosed p s h route other =
      route_problem-IsClosed p (fields s) (branches_of s) (rw (other, route) at h)
