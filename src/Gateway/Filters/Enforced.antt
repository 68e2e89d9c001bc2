-- ===== src/Gateway/Filters/Enforced.antt =====
-- What a chain of filters of internal/gateway/filter.go comes to, whatever its filters answer.
use keera_gateway.Base.{
  String, Bool, true, false, Option, none, some, List, [], ◌∷◌, ◌++◌, ◌==◌, nat_eq, string_eq,
  length, if◌then◌else◌, ◌≡◌, refl, sym, ap, ◌∙◌, Bool-cases, inl, inr, ◌⊎◌, arith,
}
use keera_gateway.Base.Int.{ℤ, pos}
use keera_gateway.Policy.Bill.{BillLine}
use keera_gateway.Policy.Filter.{Filter}
use keera_gateway.Gateway.Serve.{ServeProblem}
use keera_gateway.Gateway.Filters.{
  FilterChain, FilterRefusal, Verdict, judged, hands_on, filter_missing, filter_unavailable,
  filter_refused, filter_failed, Readers, RunError, refused_for, no_answer, FiltersEnd,
  filters_refuse, client_left, costs, note_filter, end_of, enforce, settle_filter, ran_filter,
  found_filter, with_filter_model, filter_model, after_run, unusable, verdict_of, failed, differing,
  changed_segments, chain_filter, after_filter, rebuilt, filter_chain, no_runs, apply_filters,
}
use keera_gateway.Gateway.Filters.Outcome.{
  Stays, agrees, keeps, Ends, as_it_was, as_rewritten, stays_broken, is_gone, leaves, cannot_run,
  refuses, fails, in_shadow, passes_on, rewrites,
}

append-nil : (xs : List String) → xs ++ [] ≡ xs
append-nil [] = refl
append-nil (x ∷ xs) = ap (λ (zs : List String). x ∷ zs) (append-nil xs)

append_one :
    (xs : List String) (x : String) (ys : List String) → (xs ++ x ∷ []) ++ ys ≡ xs ++ x ∷ ys
append_one [] x ys = refl
append_one (y ∷ xs) x ys = ap (λ (zs : List String). y ∷ zs) (append_one xs x ys)

differing-agrees :
    (before after : List String) → (differing before after == 0) ≡ agrees before after
unfolding differing
differing-agrees before [] = refl
differing-agrees [] (s ∷ after) = refl
differing-agrees (b ∷ before) (s ∷ after) =
    let more = differing-agrees before after in ground (arith, more)

changed_segments-keeps :
    (t : List String) (o : Option (List String)) → (changed_segments t o == 0) ≡ keeps t o
unfolding changed_segments
changed_segments-keeps t none = refl
changed_segments-keeps t (some out) = differing-agrees t out

module _ (rd : Readers) where
  -- A chain ends so, after these filters were applied.
  abbrev EndsAfter :
      List String → List String → Bool → List String → FiltersEnd × FilterChain → Type 0
  EndsAfter aliases t w before r =
      (applied : List String) × Ends rd aliases t w r.0 applied × (r.1.applied ≡ before ++ applied)

  module _ (a : String) (aliases t : List String) (w : Bool) (c : FilterChain)
      (on : List String → Bool → FilterChain → FiltersEnd × FilterChain)
      (h : (t' : List String) (w' : Bool) (c' : FilterChain)
        → EndsAfter aliases t' w' c'.applied (on t' w' c')) where
    stopped :
        (e : FiltersEnd) (c' : FilterChain)
        → c'.applied ≡ c.applied
        → Ends rd (a ∷ aliases) t w e []
        → EndsAfter (a ∷ aliases) t w c.applied (e, c')
    stopped e c' same ends = ([], ends, same ∙ sym (append-nil c.applied))

    skipped :
        (f : Filter) (c' : FilterChain)
        → c'.applied ≡ c.applied
        → rd.find_filter a ≡ some f
        → f.shadow ≡ true
        → Stays rd f t
        → EndsAfter (a ∷ aliases) t w c.applied (on t w c')
    skipped f c' same e s stays =
        let (applied, ends, more) = h t w c' in
        (
          applied,
          in_shadow a aliases t w f (on t w c').0 applied e s stays ends,
          more ∙ ap (λ (l : List String). l ++ applied) same,
        )

    applied_one :
        (f : Filter) (c' : FilterChain) (t' : List String) (w' : Bool)
        → c'.applied ≡ c.applied ++ f.alias ∷ []
        → ((e : FiltersEnd) (applied : List String)
            → Ends rd aliases t' w' e applied
            → Ends rd (a ∷ aliases) t w e (f.alias ∷ applied))
        → EndsAfter (a ∷ aliases) t w c.applied (on t' w' c')
    applied_one f c' t' w' same step =
        let (applied, ends, more) = h t' w' c' in
        (
          f.alias ∷ applied,
          step (on t' w' c').0 applied ends,
          more ∙ ap (λ (l : List String). l ++ applied) same ∙ append_one c.applied f.alias applied,
        )

    -- What is judged of the first filter, by what its verdict says.
    judged-EndsAfter :
        (f : Filter) (v : Verdict) (m : ℤ) (b : List BillLine)
        → rd.find_filter a ≡ some f
        → Stays rd f t
        → ((r : FilterRefusal)
            → f.shadow ≡ false
            → v.ref ≡ some r
            → Ends rd (a ∷ aliases) t w (filters_refuse r) [])
        → (f.shadow ≡ false
            → v.ref ≡ none
            → ((v.changed == 0) ≡ true) ⊎ (v.out ≡ none)
            → (e : FiltersEnd) (applied : List String) → Ends rd aliases t w e applied
            → Ends rd (a ∷ aliases) t w e (f.alias ∷ applied))
        → ((out : List String)
            → f.shadow ≡ false
            → v.ref ≡ none
            → (v.changed == 0) ≡ false
            → v.out ≡ some out
            → (e : FiltersEnd) (applied : List String) → Ends rd aliases out true e applied
            → Ends rd (a ∷ aliases) t w e (f.alias ∷ applied))
        → EndsAfter
            (a ∷ aliases)
            t
            w
            c.applied
            (after_filter rd (settle_filter a t (judged f v m b) c) t w on)
    unfolding after_filter settle_filter enforce end_of costs note_filter
    judged-EndsAfter f v m b e stays refused kept changed = by_shadow f.shadow refl v.ref refl
      where
        noted : FilterChain
        noted = note_filter f v m (length t) (costs m b c)

        named : FilterChain
        named = record noted { applied = c.applied ++ f.alias ∷ [] }

        by_change :
            f.shadow ≡ false
            → v.ref ≡ none
            → (same : Bool) → (v.changed == 0) ≡ same
            → (out : Option (List String)) → v.out ≡ out
            → EndsAfter
                (a ∷ aliases)
                t
                w
                c.applied
                (after_filter rd ((if same then hands_on none else hands_on out), named) t w on)
        by_change s n true z out o = applied_one f named t w refl (kept s n (inl z))
        by_change s n false z none o = applied_one f named t w refl (kept s n (inr o))
        by_change s n false z (some out) o = applied_one f named out true refl (changed out s n z o)

        by_shadow :
            (shadow : Bool)
            → f.shadow ≡ shadow
            → (ref : Option FilterRefusal) → v.ref ≡ ref
            → EndsAfter (a ∷ aliases) t w c.applied (
                after_filter rd
                  (if shadow then (hands_on none, noted) else enforce f v ref noted)
                  t
                  w
                  on)
        by_shadow true s ref n = skipped f noted refl e s stays
        by_shadow false s (some r) n = stopped (filters_refuse r) noted refl (refused r s n)
        by_shadow false s none n = by_change s n (v.changed == 0) refl v.out refl

    unusable-EndsAfter :
        (f : Filter) (p : ServeProblem)
        → rd.find_filter a ≡ some f
        → filter_model rd f ≡ some p
        → EndsAfter
            (a ∷ aliases)
            t
            w
            c.applied
            (after_filter rd (settle_filter a t (unusable f p) c) t w on)
    unfolding unusable
    unusable-EndsAfter f p e m =
        judged-EndsAfter f _ (pos 0) [] e (inl (p, m))
          (λ r s n.
            let same : filter_unavailable f.alias p ≡ r = cc n in
            rw (← same) (cannot_run a aliases t w f p e s m))
          (λ s n. absurd (cc n)) (λ out s n. absurd (cc n))

    ran-EndsAfter :
        (f : Filter) (o : Option RunError) (gone : Bool)
        → rd.find_filter a ≡ some f
        → filter_model rd f ≡ none
        → (rd.run_one f t).err ≡ o
        → (rd.run_one f t).gone ≡ gone
        → EndsAfter
            (a ∷ aliases)
            t
            w
            c.applied
            (after_filter rd (settle_filter a t (after_run f t (rd.run_one f t)) c) t w on)
    unfolding after_run failed verdict_of after_filter settle_filter end_of costs
    ran-EndsAfter f none gone e m answer g = rw answer (
        judged-EndsAfter f (verdict_of f t (rd.run_one f t) none) (rd.run_one f t).micros
          (rd.run_one f t).bills e (inr (inl answer)) (λ r s n. absurd (cc n))
          (λ s n same end applied. passes_on a aliases t w f end applied e s m answer (kept same))
          (λ out s n other gives end applied.
            rewrites a aliases t out w f end applied e s m answer gives (differs out other gives)))
      where
        kept :
            ((changed_segments t (rd.run_one f t).texts == 0) ≡ true)
              ⊎ ((rd.run_one f t).texts ≡ none)
            → keeps t (rd.run_one f t).texts ≡ true
        kept (inl same) = sym (changed_segments-keeps t (rd.run_one f t).texts) ∙ same
        kept (inr gate) = rw gate refl

        differs :
            (out : List String)
            → (changed_segments t (rd.run_one f t).texts == 0) ≡ false
            → (rd.run_one f t).texts ≡ some out
            → agrees t out ≡ false
        differs out other gives =
            sym (ap (keeps t) gives) ∙ sym (changed_segments-keeps t (rd.run_one f t).texts) ∙ other
    ran-EndsAfter f (some x) true e m answer g =
        rw (answer, g)
          (stopped client_left (costs (rd.run_one f t).micros (rd.run_one f t).bills c) refl
            (leaves a aliases t w f x e m answer g))
    ran-EndsAfter f (some (refused_for reason)) false e m answer g =
        rw (answer, g)
          (judged-EndsAfter f _ (rd.run_one f t).micros (rd.run_one f t).bills e (inr (inr g))
            (λ r s n.
              let same : filter_refused f.alias reason ≡ r = cc n in
              rw (← same) (refuses a aliases t w f reason e s m answer g))
            (λ s n. absurd (cc n)) (λ out s n. absurd (cc n)))
    ran-EndsAfter f (some (no_answer why)) false e m answer g =
        rw (answer, g)
          (judged-EndsAfter f _ (rd.run_one f t).micros (rd.run_one f t).bills e (inr (inr g))
            (λ r s n.
              let same : filter_failed f.alias why ≡ r = cc n in
              rw (← same) (fails a aliases t w f why e s m answer g))
            (λ s n. absurd (cc n)) (λ out s n. absurd (cc n)))

    found-EndsAfter :
        (o : Option Filter)
        → rd.find_filter a ≡ o
        → EndsAfter
            (a ∷ aliases)
            t
            w
            c.applied
            (after_filter rd (settle_filter a t (found_filter rd t o) c) t w on)
    unfolding found_filter after_filter settle_filter end_of with_filter_model
    found-EndsAfter none e =
        stopped (filters_refuse (filter_missing a)) c refl (is_gone a aliases t w e)
    found-EndsAfter (some f) e = by_model (filter_model rd f) refl
      where
        by_model :
            (o : Option ServeProblem)
            → filter_model rd f ≡ o
            → EndsAfter
                (a ∷ aliases)
                t
                w
                c.applied
                (after_filter rd (settle_filter a t (with_filter_model rd f t o) c) t w on)
        by_model (some p) m = unusable-EndsAfter f p e m
        by_model none m = ran-EndsAfter f (rd.run_one f t).err (rd.run_one f t).gone e m refl refl

    first-EndsAfter :
        EndsAfter (a ∷ aliases) t w c.applied (after_filter rd (chain_filter rd a t c) t w on)
    unfolding chain_filter ran_filter
    first-EndsAfter = found-EndsAfter (rd.find_filter a) refl

  filter_chain-EndsAfter :
      (aliases t : List String) (w : Bool) (c : FilterChain)
      → EndsAfter aliases t w c.applied (filter_chain rd aliases t w c)
  unfolding filter_chain rebuilt
  filter_chain-EndsAfter [] t false c = ([], as_it_was t, sym (append-nil c.applied))
  filter_chain-EndsAfter [] t true c = elim (Bool-cases (rd.rebuilds t)) [
    | inl fine ↦ rw fine ([], as_rewritten t fine, sym (append-nil c.applied))
    | inr broken ↦ rw broken ([], stays_broken t broken, sym (append-nil c.applied))
  ]
  filter_chain-EndsAfter (a ∷ aliases) t w c =
      first-EndsAfter a aliases t w c (filter_chain rd aliases) (filter_chain-EndsAfter aliases)

  -- The filters of a body end as their runs say. In order, each reads the texts that the ones before
  -- left: a missing filter refuses the request, as does an enforcing one that has no model to run
  -- on, whose run refuses, or whose run gives no answer; the chain is left if the client is gone when
  -- a run fails; a
  -- shadow filter changes nothing; and an enforcing one whose run has no error is
  -- applied, its texts going on if they differ from those it read. If all pass, what is sent are the
  -- texts of the last that rewrote any, or the body as it was, and the filters said to be applied
  -- are those, in order. (The body has a text and the chain a filter.)
  pub apply_filters-Ends :
      (a : String) (aliases : List String) (t : String) (texts : List String)
      → let r = apply_filters rd (a ∷ aliases) (some (t ∷ texts)) in
        Ends rd (a ∷ aliases) (t ∷ texts) false r.0 r.1.applied
  unfolding apply_filters
  apply_filters-Ends a aliases t texts =
      let (applied, ends, same) = filter_chain-EndsAfter (a ∷ aliases) (t ∷ texts) false no_runs in
      rw same ends
