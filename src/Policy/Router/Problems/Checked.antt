-- ===== src/Policy/Router/Problems/Checked.antt =====
-- What `Router.Problem` checks of the steps together.
use keera_gateway.Base.{
  ℕ, suc, ◌+◌, ◌≤◌, String, true, false, Option, none, some, List, [], ◌∷◌, string_eq, length, All,
  contains, ltb, Bool-cases, ◌≡◌, refl, ◌↔◌, inl, inr, arith, text_eq_iff,
}
use keera_gateway.Policy.Names.{valid_alias, valid_name}
use keera_gateway.Policy.Resolve.Filters.{NoRepeats}
use keera_gateway.Policy.Router.{Step, fields, steps, Router, RouterRefs, is_absent}
use keera_gateway.Policy.Router.Problems.{
  or_problem, refused_as, bad_step, step_problem, steps_problem, problem,
}

-- A step that has no problem of its own.
abbrev pub IsSound : RouterRefs → Step → Type 0
IsSound refs s = (valid_name (fields s).id 32 ≡ true) × (step_problem refs s ≡ none)

abbrev pub ids : List Step → List String
ids [] = []
ids (s ∷ l) = (fields s).id ∷ ids l

abbrev Apart : List String → List String → Type 0
Apart seen = All (λ (i : String). contains seen i ≡ false)

Apart-cons :
    (i : String) (seen l : List String)
    → Apart (i ∷ seen) l ↔ (Apart seen l × (contains l i ≡ false))
unfolding contains
Apart-cons i seen [] = (λ _. (tt, refl), λ _. tt)
Apart-cons i seen (j ∷ l) =
    let (to, from) = Apart-cons i seen l in
    (
      λ t.
          let r = to t.1 in
          (
            (ground (arith, text_eq_iff i j), r.0),
            ground (arith, text_eq_iff i j, text_eq_iff j i),
          ),
      λ t. (
        ground (arith, text_eq_iff i j, text_eq_iff j i),
        from (t.0.1, ground (arith, text_eq_iff j i)),
      ),
    )

nothing_seen : (l : List String) → Apart [] l
unfolding contains
nothing_seen [] = tt
nothing_seen (i ∷ l) = (refl, nothing_seen l)

or_none :
    {A B : Type 0} (f : A → B) (o : Option A) (q : Option B)
    → (or_problem (refused_as f o) q ≡ none) ↔ ((o ≡ none) × (q ≡ none))
or_none f none q = (λ e. (refl, e), λ t. t.1)
or_none f (some a) q = (λ e. cc, λ t. cc)

checked :
    (refs : RouterRefs) (n : ℕ) (seen : List String) (l : List Step)
    → n ≤ 64
    → (steps_problem refs n seen l ≡ none)
      ↔ ((n + length l ≤ 64) × Apart seen (ids l) × NoRepeats (ids l) × All (IsSound refs) l)
unfolding steps_problem
checked refs n seen [] h = (λ _. (omega arith, tt, tt, tt), λ _. refl)
checked refs n seen (s ∷ l) h = elim (Bool-cases (ltb 64 (suc n))) [
  | inl many ↦ rw many (λ e. cc, λ t. absurd (ground arith))
  | inr few ↦ rw few (elim (Bool-cases (valid_name (fields s).id 32)) [
    | inr bad ↦ rw bad (λ e. cc, λ t. let (_, _, _, ((ok, _), _)) = t in cc)
    | inl good ↦ rw good (elim (Bool-cases (contains seen (fields s).id)) [
      | inl again ↦ rw again (λ e. cc, λ t. let (_, (fresh, _), _, _) = t in cc)
      | inr fresh ↦
          let (to, from) = checked refs (suc n) ((fields s).id ∷ seen) l (ground arith) in
          let (apart, meet) = Apart-cons (fields s).id seen (ids l) in
          let (split, join) =
            or_none bad_step (step_problem refs s)
              (steps_problem refs (suc n) ((fields s).id ∷ seen) l) in
          rw fresh (
            λ e.
                let (own, rest) = split e in
                let (size, away, once, sound) = to rest in
                let (away', new) = apart away in
                (omega (arith, size), (refl, away'), (new, once), ((refl, own), sound)),
            λ t.
                let (size, (_, away), (new, once), ((_, own), sound)) = t in
                join (own, from (omega (arith, size), meet (away, new), once, sound)),
          )
    ])
  ])
]

-- A router has no problem exactly when its alias is valid, it starts with a step, it has at most
-- 64 steps, no two steps share an id, and every step has a valid id and no problem of its own.
pub problem-eq-none_iff :
    (p : Router) (refs : RouterRefs)
    → (problem p refs ≡ none) ↔ (
        (valid_alias p.alias ≡ true)
        × (is_absent p.start ≡ false)
        × (length (steps p.start) ≤ 64)
        × NoRepeats (ids (steps p.start))
        × All (IsSound refs) (steps p.start))
unfolding problem
problem-eq-none_iff p refs =
    let (to, from) = checked refs 0 [] (steps p.start) (omega arith) in
    (
      λ e.
          let (few, _, once, sound) = to (ground arith) in
          (ground arith, ground arith, omega (arith, few), once, sound),
      λ t.
          let (alias, start, few, once, sound) = t in
          let e = from (omega (arith, few), nothing_seen (ids (steps p.start)), once, sound) in
          ground arith,
    )
