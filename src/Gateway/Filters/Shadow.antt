-- ===== src/Gateway/Filters/Shadow.antt =====
-- Shadow filters in a chain of internal/gateway/filter.go.
use keera_gateway.Base.{
  String, Bool, true, false, ◌&&◌, Option, none, some, List, [], ◌∷◌, ◌++◌, nat_eq, if◌then◌else◌,
  ◌≡◌, refl, sym, ap, ◌∙◌, Bool-cases, inl, inr, arith,
}
use keera_gateway.Base.Int.{ℤ}
use keera_gateway.Policy.Bill.{BillLine}
use keera_gateway.Policy.Filter.{Filter}
use keera_gateway.Gateway.Serve.{ServeProblem}
use keera_gateway.Gateway.Filters.{
  FilterChain, FilterRefusal, Readers, Verdict, Ran, missing, left_during, judged, FilterStep,
  hands_on, stops, FiltersEnd, passed, after_run, failed, costs, note_filter, enforce,
  settle_filter, unusable, verdict_of, filter_model, with_filter_model, found_filter, ran_filter,
  chain_filter, after_filter, rebuilt, filter_chain, no_runs, apply_filters,
}

abbrev pub is_shadow : Option Filter → Bool
is_shadow none = false
is_shadow (some f) = f.shadow

module _ (rd : Readers) where
  -- The aliases of a chain but those of its shadow filters.
  abbrev pub without_shadow : List String → List String
  without_shadow [] = []
  without_shadow (a ∷ aliases) =
      let rest = without_shadow aliases in if is_shadow (rd.find_filter a) then rest else a ∷ rest

  -- The client stays while shadow filters run.
  abbrev pub ShadowsAnswer : Type 0
  ShadowsAnswer =
      (f : Filter) → f.shadow ≡ true → (texts : List String) → (rd.run_one f texts).gone ≡ false

  -- The same end, and the same filters applied.
  abbrev Alike : FiltersEnd × FilterChain → FiltersEnd × FilterChain → Type 0
  Alike r r' = (r.0 ≡ r'.0) × (r.1.applied ≡ r'.1.applied)

  -- The same step, and the same filters applied.
  abbrev StepsAlike : FilterStep × FilterChain → FilterStep × FilterChain → Type 0
  StepsAlike r r' = (r.0 ≡ r'.0) × (r.1.applied ≡ r'.1.applied)

  enforce-StepsAlike :
      (f : Filter) (v : Verdict) (ref : Option FilterRefusal) (c c' : FilterChain)
      → c.applied ≡ c'.applied
      → StepsAlike (enforce f v ref c) (enforce f v ref c')
  unfolding enforce
  enforce-StepsAlike f v none c c' e = (refl, ap (λ (l : List String). l ++ f.alias ∷ []) e)
  enforce-StepsAlike f v (some r) c c' e = (refl, e)

  settle_filter-StepsAlike :
      (a : String) (texts : List String) (w : Ran) (c c' : FilterChain)
      → c.applied ≡ c'.applied
      → StepsAlike (settle_filter a texts w c) (settle_filter a texts w c')
  unfolding settle_filter costs note_filter
  settle_filter-StepsAlike a texts missing c c' e = (refl, e)
  settle_filter-StepsAlike a texts (left_during m b) c c' e = (refl, e)
  settle_filter-StepsAlike a texts (judged f v m b) c c' e = elim (Bool-cases f.shadow) [
    | inl shadow ↦ simp shadow (refl, e)
    | inr enforcing ↦ simp enforcing (enforce-StepsAlike f v v.ref _ _ e)
  ]

  rebuilt-Alike :
      (texts : List String) (rewritten : Bool) (c c' : FilterChain)
      → c.applied ≡ c'.applied
      → Alike (rebuilt rd texts rewritten c) (rebuilt rd texts rewritten c')
  unfolding rebuilt
  rebuilt-Alike texts false c c' e = (refl, e)
  rebuilt-Alike texts true c c' e = elim (Bool-cases (rd.rebuilds texts)) [
    | inl fine ↦ rw fine (refl, e)
    | inr broken ↦ rw broken (refl, e)
  ]

  after_filter-Alike :
      (r r' : FilterStep × FilterChain) (texts : List String) (rewritten : Bool)
      (on on' : List String → Bool → FilterChain → FiltersEnd × FilterChain)
      → StepsAlike r r'
      → ((t : List String) (w : Bool) (c c' : FilterChain)
          → c.applied ≡ c'.applied
          → Alike (on t w c) (on' t w c'))
      → Alike (after_filter rd r texts rewritten on) (after_filter rd r' texts rewritten on')
  unfolding after_filter
  after_filter-Alike (s, c) (s', c') texts rewritten on on' (e, e') h = rw (← e) (by_step s)
    where
      by_step :
          (x : FilterStep)
          → Alike
              (after_filter rd (x, c) texts rewritten on)
              (after_filter rd (x, c') texts rewritten on')
      by_step (stops r) = (refl, e')
      by_step (hands_on none) = h texts rewritten c c' e'
      by_step (hands_on (some out)) = h out true c c' e'

  -- What is judged of one filter.
  abbrev IsJudged : Filter → Ran → Type 0
  IsJudged f w = (v : Verdict) × (m : ℤ) × (b : List BillLine) × (w ≡ judged f v m b)

  with_filter_model-IsJudged :
      (f : Filter) (texts : List String) (o : Option ServeProblem)
      → (rd.run_one f texts).gone ≡ false
      → IsJudged f (with_filter_model rd f texts o)
  unfolding with_filter_model after_run unusable
  with_filter_model-IsJudged f texts (some p) h = (_, _, _, refl)
  with_filter_model-IsJudged f texts none h =
      let r = rd.run_one f texts in
      by_end (failed r.err && r.gone) (ground (arith, h)) (verdict_of f texts r r.err) r.micros
        r.bills
    where
      by_end :
          (left : Bool)
          → left ≡ false
          → (v : Verdict) (m : ℤ) (b : List BillLine)
          → IsJudged f (if left then left_during m b else judged f v m b)
      by_end true e v m b = cc e
      by_end false e v m b = (v, m, b, refl)

  -- A shadow filter hands the texts on as they are, and is not applied.
  shadow_step :
      (a : String) (texts : List String) (c : FilterChain)
      → ShadowsAnswer
      → is_shadow (rd.find_filter a) ≡ true
      → StepsAlike (chain_filter rd a texts c) (hands_on none, c)
  unfolding chain_filter ran_filter found_filter settle_filter costs note_filter
  shadow_step a texts c answers e = by_filter (rd.find_filter a) e
    where
      by_filter :
          (o : Option Filter)
          → is_shadow o ≡ true
          → StepsAlike (settle_filter a texts (found_filter rd texts o) c) (hands_on none, c)
      by_filter none e' = cc e'
      by_filter (some f) e' =
          let (v, m, b, same) =
            with_filter_model-IsJudged f texts (filter_model rd f) (answers f e' texts) in
          rw same (settled f v m b e')
        where
          settled :
              (f : Filter) (v : Verdict) (m : ℤ) (b : List BillLine)
              → f.shadow ≡ true
              → StepsAlike (settle_filter a texts (judged f v m b) c) (hands_on none, c)
          settled f v m b e'' = simp e'' (refl, refl)

  without_shadow-Alike :
      (aliases texts : List String) (rewritten : Bool) (c c' : FilterChain)
      → ShadowsAnswer
      → c.applied ≡ c'.applied
      → Alike
          (filter_chain rd aliases texts rewritten c)
          (filter_chain rd (without_shadow aliases) texts rewritten c')
  unfolding filter_chain after_filter chain_filter settle_filter
  without_shadow-Alike [] texts rewritten c c' answers e = rebuilt-Alike texts rewritten c c' e
  without_shadow-Alike (a ∷ aliases) texts rewritten c c' answers e =
      elim (Bool-cases (is_shadow (rd.find_filter a))) [
        | inl shadow ↦
            let step = shadow_step a texts c answers shadow in
            rw shadow (
              after_filter-Alike (chain_filter rd a texts c) (hands_on none, c') texts rewritten
                (filter_chain rd aliases) (filter_chain rd (without_shadow aliases))
                (step.0, step.1 ∙ e)
                (λ t w d d' e'. without_shadow-Alike aliases t w d d' answers e'))
        | inr enforcing ↦ rw enforcing (
            after_filter-Alike (chain_filter rd a texts c) (chain_filter rd a texts c') texts
              rewritten (filter_chain rd aliases) (filter_chain rd (without_shadow aliases))
              (settle_filter-StepsAlike a texts (ran_filter rd a texts) c c' e)
              (λ t w d d' e'. without_shadow-Alike aliases t w d d' answers e'))
      ]

  apply_filters-chain :
      (aliases : List String) (t : String) (texts : List String)
      → Alike
          (apply_filters rd aliases (some (t ∷ texts)))
          (filter_chain rd aliases (t ∷ texts) false no_runs)
  unfolding apply_filters filter_chain rebuilt
  apply_filters-chain [] t texts = (refl, refl)
  apply_filters-chain (a ∷ aliases) t texts = (refl, refl)

  no_texts : (aliases : List String) → apply_filters rd aliases (some []) ≡ (passed none, no_runs)
  unfolding apply_filters
  no_texts [] = refl
  no_texts (a ∷ aliases) = refl

  -- Of a body that can be read, and while the client stays, shadow filters change neither what is
  -- sent or refused, nor which filters are said to be applied: both are what they would be without
  -- them.
  pub apply_filters-without_shadow :
      (aliases texts : List String)
      → ShadowsAnswer
      → ((apply_filters rd aliases (some texts)).0
          ≡ (apply_filters rd (without_shadow aliases) (some texts)).0)
        × ((apply_filters rd aliases (some texts)).1.applied
            ≡ (apply_filters rd (without_shadow aliases) (some texts)).1.applied)
  apply_filters-without_shadow aliases [] answers =
      rw (no_texts aliases, no_texts (without_shadow aliases)) (refl, refl)
  apply_filters-without_shadow aliases (t ∷ texts) answers =
      let before = apply_filters-chain aliases t texts in
      let after = apply_filters-chain (without_shadow aliases) t texts in
      let same = without_shadow-Alike aliases (t ∷ texts) false no_runs no_runs answers refl in
      (before.0 ∙ same.0 ∙ sym after.0, before.1 ∙ same.1 ∙ sym after.1)
