-- ===== src/Registry/Index.antt =====
-- The indexes of internal/registry/registry.go: what an organisation has, by alias. A replaced index
-- is a new value, as in the source, which never changes one in place. `key` finishes a thing, such
-- as by opening its credential, and names where it goes.
use keera_gateway.Base.{
  String, ◌&&◌, Option, none, some, List, [], ◌∷◌, ◌==◌, string_eq, nat_eq, ◌≡◌, refl, sym, ap, ◌∙◌,
  Bool-cases, inl, inr, if◌then◌else◌, text_eq_iff,
}
use keera_gateway.Base.Dict.{Dict, get, put, delete, get-put, get-delete}

abbrev pub Index {ℓ} : Type ℓ → Type ℓ
Index T = Dict (Dict T)

module _ {ℓ} {T : Type ℓ} where
  or_empty : Option (Dict T) → Dict T
  or_empty none = []
  or_empty (some m) = m

  -- `find`
  unfoldable pub find : Index T → String → String → Option T
  unfolding or_empty
  find index org alias = get (or_empty (get index org)) alias

  fill : (T → T × String × String) → Index T → List T → Index T
  fill key by_org [] = by_org
  fill key by_org (x ∷ xs) =
      let (y, org, alias) = key x in
      fill key (put by_org org (put (or_empty (get by_org org)) alias y)) xs

  -- `replaceAll`
  unfoldable pub replace_all : List T → (T → T × String × String) → Index T
  unfolding fill or_empty
  replace_all list key = fill key [] list

  fill_own : (T → T × String) → Dict T → List T → Dict T
  fill_own alias own [] = own
  fill_own alias own (x ∷ xs) = let (y, a) = alias x in fill_own alias (put own a y) xs

  -- `replaceOrg`
  unfoldable pub replace_org : Index T → String → List T → (T → T × String) → Index T
  unfolding fill_own
  replace_org old org [] alias = delete old org
  replace_org old org (x ∷ xs) alias = put (delete old org) org (fill_own alias [] (x ∷ xs))

  abbrev pub or_else : Option T → Option T → Option T
  or_else (some x) other = some x
  or_else none other = other

  -- What the last thing of a list that goes somewhere is there.
  abbrev pub last_at : (T → Option T) → List T → Option T
  last_at here [] = none
  last_at here (x ∷ xs) = or_else (last_at here xs) (here x)

  or_else_assoc : (a b c : Option T) → or_else (or_else a b) c ≡ or_else a (or_else b c)
  or_else_assoc (some x) b c = refl
  or_else_assoc none b c = refl

  -- Where a thing goes, if it is this place.
  abbrev pub placed : (T → T × String × String) → String → String → T → Option T
  placed key org alias x = let (y, o, a) = key x in if o == org && a == alias then some y else none

  abbrev pub placed_own : (T → T × String) → String → T → Option T
  placed_own key alias x = let (y, a) = key x in if a == alias then some y else none

  find-put :
      (m : Index T) (o org a alias : String) (y : T)
      → find (put m o (put (or_empty (get m o)) a y)) org alias
        ≡ or_else (if o == org && a == alias then some y else none) (find m org alias)
  unfolding find or_empty
  find-put m o org a alias y = elim (Bool-cases (o == org)) [
    | inr away ↦ rw (get-put, away) refl
    | inl here ↦
        let e : o ≡ org = (text_eq_iff o org).0 here in
        rw (get-put, here)
          (rw (get-put, e)
            (elim (Bool-cases (a == alias)) [
              | inl same ↦ rw same refl
              | inr other ↦ rw other refl
            ]))
  ]

  find-fill :
      (key : T → T × String × String) (xs : List T) (m : Index T) (org alias : String)
      → find (fill key m xs) org alias
        ≡ or_else (last_at (placed key org alias) xs) (find m org alias)
  unfolding fill
  find-fill key [] m org alias = refl
  find-fill key (x ∷ xs) m org alias =
      let (y, o, a) = key x in
      find-fill key xs _ org alias
      ∙ (ap (or_else (last_at (placed key org alias) xs))
            (find-put m (key x).1 org (key x).2 alias (key x).0)
          ∙ sym (or_else_assoc (last_at (placed key org alias) xs) _ _))

  get-fill_own :
      (key : T → T × String) (xs : List T) (m : Dict T) (alias : String)
      → get (fill_own key m xs) alias ≡ or_else (last_at (placed_own key alias) xs) (get m alias)
  unfolding fill_own
  get-fill_own key [] m alias = refl
  get-fill_own key (x ∷ xs) m alias =
      get-fill_own key xs _ alias
      ∙ (ap (or_else (last_at (placed_own key alias) xs)) (
            rw get-put (elim (Bool-cases ((key x).1 == alias)) [
              | inl same ↦ rw same refl
              | inr other ↦ rw other refl
            ]))
          ∙ sym (or_else_assoc (last_at (placed_own key alias) xs) _ _))

  or_else-none : (o : Option T) → or_else o none ≡ o
  or_else-none none = refl
  or_else-none (some x) = refl

  find-replace_org :
      (own : T → T × String) (mine : List T) (old : Index T) (org changed alias : String)
      → find (replace_org old changed mine own) org alias
        ≡ (if changed == org then last_at (placed_own own alias) mine else find old org alias)
  unfolding replace_org find or_empty get
  find-replace_org own [] old org changed alias =
      rw get-delete
        (elim (Bool-cases (changed == org)) [ inl same ↦ rw same refl | inr other ↦ rw other refl ])
  find-replace_org own (x ∷ xs) old org changed alias = elim (Bool-cases (changed == org)) [
    | inl same ↦ rw (get-put, same) (get-fill_own own (x ∷ xs) [] alias ∙ or_else-none _)
    | inr other ↦ rw (get-put, other) (rw (get-delete, other) refl)
  ]

  -- Reading an index after all of it, or one organisation's part, was replaced: a place holds the
  -- last thing of the list that goes there, and nothing if none does; the other organisations' things
  -- are what they were.
  pub find-replace :
      (key : T → T × String × String) (own : T → T × String) (list mine : List T) (old : Index T)
      (org changed alias : String)
      → (find (replace_all list key) org alias ≡ last_at (placed key org alias) list)
        × (find (replace_org old changed mine own) org alias
            ≡ (if changed == org then last_at (placed_own own alias) mine else find old org alias))
  unfolding replace_all find get
  find-replace key own list mine old org changed alias = (
    find-fill key list [] org alias ∙ or_else-none (last_at (placed key org alias) list),
    find-replace_org own mine old org changed alias,
  )
