-- ===== src/Gateway/Credit/Location.antt =====
-- The locations that a request's filters read it in: `filterOutside` of internal/gateway/location.go.
use keera_gateway.Base.{
  String, true, false, not, Option, none, some, List, [], ◌∷◌, ◌≡◌, refl, sym, ◌∙◌, ◌↔◌, ◌⊎◌, All,
  Bool-cases, inl, inr, arith,
}
use mathlib.Core.Option.{some-injective}
use keera_gateway.Policy.Model.{Model}
use keera_gateway.Policy.AllowList.{allows}
use keera_gateway.Policy.Filter.{Filter, uses_model}
use keera_gateway.Policy.Resolve.{Resolved}
use keera_gateway.Gateway.Credit.{
  runs_outside, filter_leaves, first_outside, outside_of, filter_outside,
}

module _ (find : String → Option Model) (find_filter : String → Option Filter)
    (res : Resolved) where
  -- A filter that reads with a model has one, in a location that the key allows.
  abbrev pub StaysInside : String → Type 0
  StaysInside a =
      (f : Filter)
      → find_filter a ≡ some f
      → uses_model f.mode ≡ true
      → (m : Model) × (find f.model ≡ some m) × (allows res.allowed_locations m.location ≡ true)

  runs_outside-eq-false_iff :
      (f : Filter) (o : Option Model)
      → (runs_outside find find_filter res f o ≡ false)
        ↔ ((m : Model) × (o ≡ some m) × (allows res.allowed_locations m.location ≡ true))
  unfolding runs_outside
  runs_outside-eq-false_iff f none = ((λ e. cc e), (λ (m, e, a). cc e))
  runs_outside-eq-false_iff f (some m) =
      ((λ e. (m, refl, ground (arith, e))), (λ (m', e, a). by_model m' (some-injective _ _ e) a))
    where
      by_model :
          (m' : Model)
          → m ≡ m'
          → allows res.allowed_locations m'.location ≡ true
          → not (allows res.allowed_locations m.location) ≡ false
      by_model m' e a = rw (e, a) refl

  filter_leaves-eq-false_iff :
      (a : String) (o : Option Filter)
      → find_filter a ≡ o
      → (filter_leaves find find_filter res o ≡ false) ↔ StaysInside a
  unfolding filter_leaves
  filter_leaves-eq-false_iff a none e = ((λ e' f e''. cc (sym e ∙ e'')), (λ h. refl))
  filter_leaves-eq-false_iff a (some f) e = elim (Bool-cases (uses_model f.mode)) [
    | inr pattern' ↦
        rw pattern'
          ((λ e' f' e'' u. cc (rw (← some-injective _ _ (sym e ∙ e'')) at u)), (λ h. refl))
    | inl reads ↦ rw reads (
      (λ e' f' e'' u.
          rw (← some-injective _ _ (sym e ∙ e''))
            ((runs_outside-eq-false_iff f (find f.model)).0 e')),
      (λ h. (runs_outside-eq-false_iff f (find f.model)).1 (h f e reads)),
    )
  ]

  first_outside-eq-none_iff :
      (aliases : List String)
      → (first_outside find find_filter res aliases ≡ none) ↔ All StaysInside aliases
  unfolding first_outside
  first_outside-eq-none_iff [] = ((λ e. tt), (λ h. refl))
  first_outside-eq-none_iff (a ∷ aliases) =
      let here = filter_leaves-eq-false_iff a (find_filter a) refl in
      let later = first_outside-eq-none_iff aliases in
      elim (Bool-cases (filter_leaves find find_filter res (find_filter a))) [
        | inl leaves ↦ rw leaves ((λ e. cc e), (λ (h, hs). cc (sym leaves ∙ here.1 h)))
        | inr stays ↦ rw stays ((λ e. (here.0 stays, later.0 e)), (λ (h, hs). later.1 hs))
      ]

  -- Under a location limit, a request passes the check of its filters exactly when every one of them
  -- that reads it with a model has a model in a location that the key allows; without a limit, always.
  pub filter_outside-eq-none_iff :
      (filters : List String)
      → (filter_outside find find_filter res filters ≡ none)
        ↔ ((res.allowed_locations ≡ none) ⊎ All StaysInside filters)
  unfolding filter_outside outside_of
  filter_outside-eq-none_iff filters = by_limit res.allowed_locations refl
    where
      by_limit :
          (l : Option (List String))
          → res.allowed_locations ≡ l
          → (outside_of find find_filter l (first_outside find find_filter res filters) ≡ none)
            ↔ ((res.allowed_locations ≡ none) ⊎ All StaysInside filters)
      by_limit none e = ((λ e'. inl e), (λ h. refl))
      by_limit (some l) e = (
        (λ e'. inr ((first_outside-eq-none_iff filters).0 e')),
        (λ h. elim h [
          | inl e' ↦ cc (sym e ∙ e')
          | inr stays ↦ (first_outside-eq-none_iff filters).1 stays
        ]),
      )
