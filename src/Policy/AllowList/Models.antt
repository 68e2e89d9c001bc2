-- ===== src/Policy/AllowList/Models.antt =====
-- Narrowing is an intersection.
use keera_gateway.Base.{
  String, Bool, false, Option, none, some, List, [], ◌∷◌, ◌&&◌, ◌||◌, ◌==◌, string_eq, ◌≡◌, refl,
  ◌∙◌, arith, contains, contains-append, any, text_eq_iff, Bool-cases, inl, inr,
}
use keera_gateway.Policy.AllowList.{kept, keep, inner, outer, narrow_list, intersect, allows}

-- Whether an entry is kept from a pair.
abbrev pub is_kept : Option String → String → Bool
is_kept none x = false
is_kept (some y) x = y == x

contains-keep :
    (out : List String) (o : Option String) (x : String)
    → contains (keep out o) x ≡ (contains out x || is_kept o x)
unfolding keep
contains-keep out none x = ground arith
contains-keep out (some y) x = elim (Bool-cases (contains out y)) [
  | inl old ↦ rw old (elim (Bool-cases (y == x)) [
    | inl same ↦ let e : y ≡ x = (text_eq_iff y x).0 same in rw (same, ← e, old) refl
    | inr other ↦ rw other (ground arith)
  ])
  | inr new ↦ rw (new, contains-append) (unfold contains in ground arith)
]

module _ (covers : String → String → Bool) (x : String) where
  -- Whether some pair of entries keeps `x`.
  abbrev pub any_kept : List String → List String → Bool
  any_kept cur next = any (λ a. any (λ b. is_kept (kept covers a b) x) next) cur

  contains-inner :
      (a : String) (next out : List String)
      → contains (inner covers a next out) x
        ≡ (contains out x || any (λ b. is_kept (kept covers a b) x) next)
  unfolding inner
  contains-inner a [] out = ground arith
  contains-inner a (b ∷ next) out =
      contains-inner a next (keep out (kept covers a b))
      ∙ rw (contains-keep out (kept covers a b) x) (ground arith)

  contains-outer :
      (cur next out : List String)
      → contains (outer covers cur next out) x ≡ (contains out x || any_kept cur next)
  unfolding outer
  contains-outer [] next out = ground arith
  contains-outer (a ∷ cur) next out =
      contains-outer cur next (inner covers a next out)
      ∙ rw (contains-inner a next out) (ground arith)

  -- An entry is in the narrowed list exactly when some pair of entries keeps it.
  pub contains-narrow_list :
      (cur next : List String) → contains (narrow_list cur next covers) x ≡ any_kept cur next
  unfolding narrow_list contains
  contains-narrow_list cur next = contains-outer cur next []

abbrev eq : String → String → Bool
eq a b = a == b

inner-eq :
    (a x : String) (next : List String)
    → any (λ b. is_kept (kept eq a b) x) next ≡ (a == x && contains next x)
unfolding kept contains
inner-eq a x [] = ground arith
inner-eq a x (b ∷ next) =
    ground
      (arith, inner-eq a x next, text_eq_iff a b, text_eq_iff b a, text_eq_iff a x, text_eq_iff b x)

outer-eq :
    (x : String) (cur next : List String)
    → any_kept eq x cur next ≡ (contains cur x && contains next x)
unfolding contains
outer-eq x [] next = refl
outer-eq x (a ∷ cur) next = rw (inner-eq a x next, outer-eq x cur next) (ground arith)

-- Narrowing a list of models or locations allows exactly what both lists allow, where a list that
-- is not there allows everything: a level can never widen what it inherits.
pub allows-intersect :
    (cur next : Option (List String)) (x : String)
    → allows (intersect cur next) x ≡ (allows cur x && allows next x)
unfolding allows intersect
allows-intersect none none x = refl
allows-intersect none (some next) x = refl
allows-intersect (some cur) none x = ground arith
allows-intersect (some cur) (some next) x = contains-narrow_list eq x cur next ∙ outer-eq x cur next
