-- ===== src/Policy/Router/Problems/Ends.antt =====
-- A router that passes its checks has a model to send to.
use keera_gateway.Base.{
  String, true, false, none, List, [], ◌∷◌, ◌++◌, ◌&&◌, ◌==◌, string_eq, not, inl, inr, any,
  any-append, All, All-split, contains, Bool-cases, ◌≡◌, ◌≢◌, refl, ◌∙◌, arith, text_eq_self,
}
use keera_gateway.Policy.Router.{
  Step, step, Link, to, absent, Branches, no_more, branch, fields, next_of, branches_of, branch_at,
  is_absent, step_model, step_route, steps, steps_in, Router, RouterRefs, reaches,
}
use keera_gateway.Policy.Router.Reach.{sends_to, contains-reaches}
use keera_gateway.Policy.Router.Problems.{
  names_something, names_nothing, has_prompt, has_route_fields, has_rates, has_budget, has_period,
  has_exceeded, has_branches, route_has_next, model_has_next, no_next, shape_problem, problem,
}
use keera_gateway.Policy.Router.Problems.Checked.{IsSound, problem-eq-none_iff}
use keera_gateway.Policy.Router.Problems.Answers.{guard_none, use_none, use_problem-IsRoute}

-- Some step sends to some model.
abbrev Ends : List Step → Type 0
Ends l = (a : String) × (any (sends_to a) l ≡ true)

Ends-left : (xs ys : List Step) → Ends xs → Ends (xs ++ ys)
Ends-left xs ys (a, h) = (a, any-append (sends_to a) xs ys ∙ ground arith)

Ends-right : (xs ys : List Step) → Ends ys → Ends (xs ++ ys)
Ends-right xs ys (a, h) = (a, any-append (sends_to a) xs ys ∙ ground arith)

Ends-here : (s : Step) (l : List Step) (a : String) → sends_to a s ≡ true → Ends (s ∷ l)
Ends-here s l a h = (a, ground arith)

Ends-later : (s : Step) (l : List Step) → Ends l → Ends (s ∷ l)
Ends-later s l (a, h) = (a, ground arith)

first_of : (l : List String) → l ≢ [] → (d : String) × (ds : List String) × (l ≡ d ∷ ds)
first_of [] h = absurd (h refl)
first_of (d ∷ ds) h = (d, ds, refl)

module _ (refs : RouterRefs) where
  pub goes_on :
      (s : Step)
      → shape_problem s ≡ none
      → ((fields s).kind == step_model) ≡ false
      → ((fields s).kind == step_route) ≡ false
      → is_absent (next_of s) ≡ false
  unfolding shape_problem
  goes_on s h a b =
      let h0 = (guard_none refs _ names_something _ h).1 in
      let h1 = (guard_none refs _ names_nothing _ h0).1 in
      let h2 = (guard_none refs _ has_prompt _ h1).1 in
      let h3 = (guard_none refs _ has_route_fields _ h2).1 in
      let h4 = (guard_none refs _ has_rates _ h3).1 in
      let h5 = (guard_none refs _ has_budget _ h4).1 in
      let h6 = (guard_none refs _ has_period _ h5).1 in
      let h7 = (guard_none refs _ has_exceeded _ h6).1 in
      let h8 = (guard_none refs _ has_branches _ h7).1 in
      let h9 = (guard_none refs _ route_has_next _ h8).1 in
      let h10 = (guard_none refs _ model_has_next _ h9).1 in
      let last : (not ((fields s).kind == step_route)
            && not ((fields s).kind == step_model)
            && is_absent (next_of s))
          ≡ false =
        (guard_none refs _ no_next _ h10).0 in
      rw (a, b) at last

  model-Ends : (s : Step) (l : List Step) → ((fields s).kind == step_model) ≡ true → Ends (s ∷ l)
  model-Ends s l h = Ends-here s l (fields s).ref (rw h (text_eq_self (fields s).ref))

  -- The first destination of a route step: its branch, or the model itself.
  first_end :
      (s : Step) (l : List Step) (d : String) (ds : List String)
      → (fields s).destinations ≡ d ∷ ds
      → ((fields s).kind == step_model) ≡ false
      → ((fields s).kind == step_route) ≡ true
      → is_absent (branch_at (branches_of s) d) ≡ true
      → Ends (s ∷ l)
  first_end s l d ds e other route end =
      Ends-here s l d (rw (other, route, e, end, text_eq_self d) refl)

  mutual
    unfolding steps

    leads : (l : Link) → is_absent l ≡ false → All (IsSound refs) (steps l) → Ends (steps l)
    leads absent h k = cc
    leads (to (step f next exceeded bs)) h ((ok, sound), rest) =
        let s = step f next exceeded bs in
        let (shape, use') = use_none refs s sound in
        let (in_next, others) =
          All-split (IsSound refs) (steps next) (steps exceeded ++ steps_in bs) rest in
        let (in_exceeded, in_branches) =
          All-split (IsSound refs) (steps exceeded) (steps_in bs) others in
        let last : List Step = steps exceeded ++ steps_in bs in
        let later : List Step = steps next ++ last in
        elim (Bool-cases (f.kind == step_model)) [
          | inl model ↦ model-Ends s later model
          | inr other ↦ elim (Bool-cases (f.kind == step_route)) [
            | inr neither ↦
                Ends-later s later
                  (Ends-left (steps next) last (leads next (goes_on s shape other neither) in_next))
            | inl route ↦
                let (d, ds, e) =
                  first_of f.destinations
                    (use_problem-IsRoute refs s use' route).some_destination in
                elim (Bool-cases (is_absent (branch_at bs d))) [
                  | inl end ↦ first_end s later d ds e other route end
                  | inr further ↦ Ends-later s later (
                      Ends-right (steps next) last (
                        Ends-right (steps exceeded) (steps_in bs)
                          (leads_in bs d further in_branches)))
                ]
          ]
        ]

    leads_in :
        (bs : Branches) (d : String)
        → is_absent (branch_at bs d) ≡ false
        → All (IsSound refs) (steps_in bs)
        → Ends (steps_in bs)
    leads_in no_more d h k = cc
    leads_in (branch dest link rest) d h k =
        let (in_link, in_rest) = All-split (IsSound refs) (steps link) (steps_in rest) k in
        elim (Bool-cases (dest == d)) [
          | inl same ↦ Ends-left (steps link) (steps_in rest) (leads link (rw same at h) in_link)
          | inr other ↦
              Ends-right (steps link) (steps_in rest) (leads_in rest d (rw other at h) in_rest)
        ]

-- A router without a problem has a model that it can send a request to: `Reaches` is not empty.
pub reaches_some :
    (p : Router) (refs : RouterRefs)
    → problem p refs ≡ none
    → (a : String) × (contains (reaches p) a ≡ true)
reaches_some p refs h =
    let (_, start, _, _, sound) = (problem-eq-none_iff p refs).0 h in
    let (a, ends) = leads refs p.start start sound in (a, contains-reaches p a ∙ ends)
