-- ===== src/Gateway/Sorting.antt =====
-- Go's stable sorts, as insertion: an element stands before those that are not less than it and
-- followed it before.
use keera_gateway.Base.{
  Bool, true, false, not, ◌&&◌, Option, none, some, sym, ◌||◌, List, [], ◌∷◌, ◌≡◌, refl, ◌∙◌, ap,
  if◌then◌else◌, any, All, Bool-cases, inl, inr, arith,
}

module _ {ℓ} {A : Type ℓ} (less : A → A → Bool) where
  -- Past the elements that are less.
  pub insert : A → List A → List A
  insert x [] = x ∷ []
  insert x (y ∷ ys) = let further = y ∷ insert x ys in if less y x then further else x ∷ (y ∷ ys)

  unfoldable pub sort_stable : List A → List A
  unfolding insert
  sort_stable [] = []
  sort_stable (x ∷ xs) = insert x (sort_stable xs)

  any-insert : (p : A → Bool) (x : A) (xs : List A) → any p (insert x xs) ≡ (p x || any p xs)
  unfolding insert
  any-insert p x [] = refl
  any-insert p x (y ∷ ys) = elim (Bool-cases (less y x)) [
    | inl past ↦ rw (past, any-insert p x ys) (ground arith)
    | inr here ↦ rw here refl
  ]

  -- A sorted list has the same elements.
  pub any-sort_stable : (p : A → Bool) (xs : List A) → any p (sort_stable xs) ≡ any p xs
  unfolding sort_stable
  any-sort_stable p [] = refl
  any-sort_stable p (x ∷ xs) =
      any-insert p x (sort_stable xs) ∙ ap (λ (b : Bool). p x || b) (any-sort_stable p xs)

module _ {ℓ κ} {A : Type ℓ} (less : A → A → Bool) (P : A → Type κ) where
  All-insert_any : (x : A) (xs : List A) → P x → All P xs → All P (insert less x xs)
  unfolding insert
  All-insert_any x [] p h = (p, h)
  All-insert_any x (y ∷ ys) p (q, h) = elim (Bool-cases (less y x)) [
    | inl past ↦ rw past (q, All-insert_any x ys p h)
    | inr here ↦ rw here (p, (q, h))
  ]

  pub All-sort_stable : (xs : List A) → All P xs → All P (sort_stable less xs)
  unfolding sort_stable
  All-sort_stable [] h = tt
  All-sort_stable (x ∷ xs) (p, h) = All-insert_any x (sort_stable less xs) p (All-sort_stable xs h)

-- The first element that passes a test.
abbrev pub first_that {ℓ} : {A : Type ℓ} → (A → Bool) → List A → Option A
first_that p [] = none
first_that p (x ∷ xs) = let later = first_that p xs in if p x then some x else later

-- The one in front, if it passes and the other does not go before it.
abbrev pub better {ℓ} : {A : Type ℓ} → (A → A → Bool) → (A → Bool) → A → Option A → Option A
better less p x none = if p x then some x else none
better less p x (some y) = if p x && not (less y x) then some x else some y

-- A strict order of ranks: of two, one at most goes before the other, and what does not go before
-- one that does not go before a third does not go before that.
pub record IsRanking {ℓ} {A : Type ℓ} (less : A → A → Bool) : Type ℓ where
  pub one_way : (x y : A) → less y x ≡ true → less x y ≡ false
  pub passes_on : (x y z : A) → less y x ≡ false → less z y ≡ false → less z x ≡ false

module _ {ℓ} {A : Type ℓ} (less : A → A → Bool) (ranking : IsRanking less) (p : A → Bool) where
  IsSorted : List A → Type 0
  IsSorted [] = Unit
  IsSorted (x ∷ xs) = All (λ (z : A). less z x ≡ false) xs × IsSorted xs

  All-insert :
      (x y : A) (ys : List A)
      → less x y ≡ false
      → All (λ (z : A). less z y ≡ false) ys
      → All (λ (z : A). less z y ≡ false) (insert less x ys)
  unfolding insert
  All-insert x y [] h k = (h, tt)
  All-insert x y (z ∷ zs) h (k, ks) = elim (Bool-cases (less z x)) [
    | inl past ↦ rw past (k, All-insert x y zs h ks)
    | inr here ↦ rw here (h, (k, ks))
  ]

  All-below :
      (x y : A) (ys : List A)
      → less y x ≡ false
      → All (λ (z : A). less z y ≡ false) ys
      → All (λ (z : A). less z x ≡ false) ys
  All-below x y [] h k = tt
  All-below x y (z ∷ zs) h (k, ks) = (ranking.passes_on x y z h k, All-below x y zs h ks)

  insert-IsSorted : (x : A) (ys : List A) → IsSorted ys → IsSorted (insert less x ys)
  unfolding insert IsSorted
  insert-IsSorted x [] h = (tt, tt)
  insert-IsSorted x (y ∷ ys) (h, hs) = elim (Bool-cases (less y x)) [
    | inl past ↦ rw past (All-insert x y ys (ranking.one_way x y past) h, insert-IsSorted x ys hs)
    | inr here ↦ rw here ((here, All-below x y ys here h), (h, hs))
  ]

  -- In front of a list none of which goes before it.
  better_front :
      (x : A) (ys : List A)
      → All (λ (z : A). less z x ≡ false) ys
      → better less p x (first_that p ys) ≡ (if p x then some x else first_that p ys)
  better_front x [] h = refl
  better_front x (y ∷ ys) (h, hs) = elim (Bool-cases (p y)) [
    | inl passes ↦ rw (passes, h) (ground arith)
    | inr fails ↦ rw fails (better_front x ys hs)
  ]

  first_that-insert :
      (x : A) (ys : List A)
      → IsSorted ys
      → first_that p (insert less x ys) ≡ better less p x (first_that p ys)
  unfolding insert IsSorted
  first_that-insert x [] h = refl
  first_that-insert x (y ∷ ys) (h, hs) = elim (Bool-cases (less y x)) [
    | inr here ↦ rw here (sym (better_front x (y ∷ ys) (here, All-below x y ys here h)))
    | inl past ↦ elim (Bool-cases (p y)) [
      | inl passes ↦ rw (past, passes) (ground (arith, past))
      | inr fails ↦ rw (past, fails) (first_that-insert x ys hs)
    ]
  ]

  sort_stable-IsSorted : (xs : List A) → IsSorted (sort_stable less xs)
  unfolding sort_stable IsSorted
  sort_stable-IsSorted [] = tt
  sort_stable-IsSorted (x ∷ xs) = insert-IsSorted x (sort_stable less xs) (sort_stable-IsSorted xs)

  -- The first of a sorted list that passes is found by looking at each element once.
  pub first_that-sort_stable :
      (x : A) (xs : List A)
      → first_that p (sort_stable less (x ∷ xs))
        ≡ better less p x (first_that p (sort_stable less xs))
  unfolding sort_stable
  first_that-sort_stable x xs = first_that-insert x (sort_stable less xs) (sort_stable-IsSorted xs)
