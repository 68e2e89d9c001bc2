-- ===== src/Registry/Budgets/Prepaid/Holds.antt =====
-- What holding credit promises: that a release gives back a hold, and how far an organisation can run
-- past its balance.
use keera_gateway.Base.{
  ℕ, ◌+◌, ◌-◌, All, ◌≤◌, ◌<◌, ◌^◌, ◌≡◌, refl, sym, ◌∙◌, ◌==◌, text_eq_iff, ap, ◌⊎◌, inl, inr, arith,
  String, true, false, List, [], ◌∷◌, string_eq, Bool-cases, text_eq_self, leb, ltb, if◌then◌else◌,
}
use keera_gateway.Base.Dict.{put, delete, get-put, get-delete}
use keera_gateway.Base.Int.{ℤ, pos, negsuc, pos_part, ◌-ℤ◌, leb_ℤ, ltb_ℤ}
use keera_gateway.Base.Int64.{wrap, add64, sub64, add64-pos, sub64-pos}
use keera_gateway.Registry.Budgets.{Budgets}
use keera_gateway.Registry.Budgets.Prepaid.{
  Hold, holds, credit_of, held_of, refused, hold_credit, release_credit,
}

-- What a hold leaves, released: a refusal holds nothing.
abbrev pub given_back : String → Budgets × Hold → Budgets
given_back org (b, refused balance held) = b
given_back org (b, holds n) = release_credit b org n

release-put :
    (b : Budgets) (org : String) (h m : ℕ)
    → h + m < 2 ^ 63
    → 0 < m
    → let b' : Budgets = record b { held = put b.held org (pos (h + m)) } in
      release_credit b' org (pos m) ≡ (
        if ltb 0 h
        then record b' { held = put b'.held org (pos h) }
        else record b' { held = delete b'.held org })
unfolding release_credit
release-put b org h m room p =
    rw (get-put, text_eq_self org, sub64-pos (h + m) m (omega arith) room)
      (let back : h + m - m ≡ h = omega arith in rw back (ground arith))

put_back :
    (b : Budgets) (org o : String) (h m : ℕ)
    → held_of b org ≡ pos h
    → h + m < 2 ^ 63
    → 0 < m
    → held_of (release_credit (record b { held = put b.held org (pos (h + m)) }) org (pos m)) o
      ≡ held_of b o
put_back b org o h m e room p = rw (release-put b org h m room p) (elim (Bool-cases (org == o)) [
  | inl same ↦
      let here : org ≡ o = (text_eq_iff org o).0 same in
      elim (Bool-cases (ltb 0 h)) [
        | inl some_left ↦ rw some_left (rw (get-put, same) (sym e ∙ ap (held_of b) here))
        | inr none_left ↦
            let zero_left : h ≡ 0 = ground arith in
            rw none_left
              (rw (get-delete, same) (ap pos (sym zero_left) ∙ sym e ∙ ap (held_of b) here))
      ]
  | inr other ↦ elim (Bool-cases (ltb 0 h)) [
    | inl some_left ↦ rw some_left (rw (get-put, other, get-put, other) refl)
    | inr none_left ↦ rw none_left (rw (get-delete, other, get-put, other) refl)
  ]
])

-- A credit hold and its release, for any organisation, leave what every organisation holds as it was.
pub held-given_back-hold_credit :
    (b : Budgets) (org o : String) (micros : ℤ) (h : ℕ)
    → held_of b org ≡ pos h
    → h + pos_part micros < 2 ^ 63
    → held_of (given_back org (hold_credit b org micros)) o ≡ held_of b o
unfolding hold_credit release_credit
held-given_back-hold_credit b org o (negsuc n) h e room = ground arith
held-given_back-hold_credit b org o (pos n) h e room = elim (Bool-cases (ltb 0 n)) [
  | inl some_held ↦
      let sum : add64 (held_of b org) (pos n) ≡ pos (h + n) = rw e (add64-pos h n room) in
      ground (
        arith,
        ap
            (λ (a : ℤ).
              held_of (release_credit (record b { held = put b.held org a }) org (pos n)) o)
            sum,
        put_back b org o h n e room (ground arith),
      )
  | inr none_held ↦ ground arith
]

-- An organisation that pays in advance, with balance B, whose running requests hold h.
pub record IsHolding (b : Budgets) (org : String) (B h : ℕ) : Type 0 where
  pub prepaid : b.prepaid ≡ true
  pub invoiced : (credit_of b org).invoiced ≡ false
  pub balance : (credit_of b org).balance ≡ pos B
  pub held : held_of b org ≡ pos h

abbrev held_after : ℕ → ℕ → ℕ → ℕ
held_after B h m = if ltb h B then h + m else h

-- The sign of what is left of a balance.
sign : (B h : ℕ) → B < 2 ^ 63 → h < 2 ^ 63 → leb_ℤ (sub64 (pos B) (pos h)) (pos 0) ≡ leb B h
unfolding sub64 wrap ◌-ℤ◌
sign B h p q = ground arith

abbrev with_held : Budgets → String → ℕ → Budgets
with_held b org h = record b { held = put b.held org (pos h) }

hold_credit-admitted :
    (b : Budgets) (org : String) (B h m : ℕ)
    → IsHolding b org B h
    → B < 2 ^ 63
    → h < B
    → h + m < 2 ^ 63
    → (hold_credit b org (pos m)).0 ≡ (if ltb 0 m then with_held b org (h + m) else b)
unfolding hold_credit
hold_credit-admitted b org B h m i big room fits = ground (
  arith,
  sign B h big (omega arith),
  add64-pos h m fits,
  ap (λ (a : ℤ). sub64 a (held_of b org)) i.balance,
  ap (λ (a : ℤ). sub64 (pos B) a) i.held,
  ap (λ (a : ℤ). add64 a (pos m)) i.held,
)

hold_credit-refused :
    (b : Budgets) (org : String) (B h m : ℕ)
    → IsHolding b org B h
    → h < 2 ^ 63
    → B ≤ h
    → (hold_credit b org (pos m)).0 ≡ b
unfolding hold_credit
hold_credit-refused b org B h m i small full = ground (
  arith,
  sign B h (omega arith) small,
  ap (λ (a : ℤ). sub64 a (held_of b org)) i.balance,
  ap (λ (a : ℤ). sub64 (pos B) a) i.held,
)

with_held-IsHolding :
    (b : Budgets) (org : String) (B h k : ℕ)
    → IsHolding b org B h
    → IsHolding (with_held b org k) org B k
with_held-IsHolding b org B h k i = record {
  prepaid = i.prepaid;
  invoiced = i.invoiced;
  balance = i.balance;
  held = rw (get-put, text_eq_self org) refl;
}

hold-IsHolding :
    (b : Budgets) (org : String) (B h m : ℕ)
    → IsHolding b org B h
    → B < 2 ^ 63
    → h < 2 ^ 63
    → (h < B → h + m < 2 ^ 63)
    → IsHolding (hold_credit b org (pos m)).0 org B (held_after B h m)
hold-IsHolding b org B h m i big small fits = elim (Bool-cases (ltb h B)) [
  | inl room ↦
      rw (room, hold_credit-admitted b org B h m i big (ground arith) (fits (ground arith)))
        (elim (Bool-cases (ltb 0 m)) [
          | inl some_do ↦ rw some_do (with_held-IsHolding b org B h (h + m) i)
          | inr none_do ↦ let z : h + m ≡ h = ground arith in rw (none_do, z) i
        ])
  | inr full ↦ rw (full, hold_credit-refused b org B h m i small (ground arith)) i
]

left_sign : (h r : ℕ) → h < 2 ^ 63 → r < 2 ^ 63 → ltb_ℤ (pos 0) (sub64 (pos h) (pos r)) ≡ ltb r h
unfolding sub64 wrap ◌-ℤ◌
left_sign h r p q = ground arith

-- What a release leaves of the held amount.
released :
    (b : Budgets) (org : String) (B h r : ℕ)
    → IsHolding b org B h
    → h < 2 ^ 63
    → r < 2 ^ 63
    → release_credit b org (pos r) ≡ (
        if leb r 0
        then b
        else if ltb r h
        then with_held b org (h - r)
        else record b { held = delete b.held org })
unfolding release_credit
released b org B h r i small fits = elim (Bool-cases (ltb r h)) [
  | inl more ↦ ground (
    arith,
    left_sign h r small fits,
    sub64-pos h r (ground arith) small,
    ap (λ (a : ℤ). sub64 a (pos r)) i.held,
  )
  | inr none_left ↦ ground (arith, left_sign h r small fits, ap (λ (a : ℤ). sub64 a (pos r)) i.held)
]

-- An organisation of which nothing is held any more.
cleared-IsHolding :
    (b : Budgets) (org : String) (B h : ℕ)
    → IsHolding b org B h
    → IsHolding (record b { held = delete b.held org }) org B 0
cleared-IsHolding b org B h i = record {
  prepaid = i.prepaid;
  invoiced = i.invoiced;
  balance = i.balance;
  held = rw (get-delete, text_eq_self org) refl;
}

release-IsHolding :
    (b : Budgets) (org : String) (B h r : ℕ)
    → IsHolding b org B h
    → h < 2 ^ 63
    → r < 2 ^ 63
    → IsHolding (release_credit b org (pos r)) org B (h - r)
release-IsHolding b org B h r i small fits =
    rw (released b org B h r i small fits) (elim (Bool-cases (leb r 0)) [
      | inl nothing ↦ let z : h - r ≡ h = ground arith in rw (nothing, z) i
      | inr something ↦ elim (Bool-cases (ltb r h)) [
        | inl more ↦ rw (something, more) (with_held-IsHolding b org B h (h - r) i)
        | inr all_gone ↦
            let z : h - r ≡ 0 = ground arith in
            rw (something, all_gone, z) (cleared-IsHolding b org B h i)
      ]
    ])

-- What running requests do to one organisation's credit.
pub data Move : Type 0 where
  hold : ℕ → Move
  release : ℕ → Move

unfoldable pub run_move : Budgets → String → Move → Budgets
run_move b org (hold m) = (hold_credit b org (pos m)).0
run_move b org (release r) = release_credit b org (pos r)

unfoldable pub run_moves : Budgets → String → List Move → Budgets
unfolding run_move
run_moves b org [] = b
run_moves b org (move ∷ moves) = run_moves (run_move b org move) org moves

-- Every hold is of `most` at the most, and every release is an `int64`.
abbrev pub IsBounded : ℕ → Move → Type 0
IsBounded most (hold m) = m ≤ most
IsBounded most (release r) = r < 2 ^ 63

-- Whatever holds, of `most` at the most, and releases come in whatever order, from a state in
-- which the requests of an organisation that pays in advance hold nothing or less than its
-- balance and `most` together, they hold nothing or less than that afterwards. (The balance and
-- `most` add up to an `int64`.)
pub run_moves_bounded :
    (moves : List Move) (b : Budgets) (org : String) (B most h : ℕ)
    → IsHolding b org B h
    → (h ≡ 0) ⊎ (h < B + most)
    → All (IsBounded most) moves
    → B + most < 2 ^ 63
    → (h' : ℕ) × IsHolding (run_moves b org moves) org B h' × ((h' ≡ 0) ⊎ (h' < B + most))
unfolding run_moves
run_moves_bounded [] b org B most h i o _ _ = (h, i, o)
run_moves_bounded (hold m ∷ moves) b org B most h i o (le, les) fits =
    run_moves_bounded moves (hold_credit b org (pos m)).0 org B most (held_after B h m)
      (hold-IsHolding b org B h m i (omega arith) (omega arith) (λ p. omega arith)) (ground arith)
      les fits
run_moves_bounded (release r ∷ moves) b org B most h i o (small, les) fits =
    run_moves_bounded moves (release_credit b org (pos r)) org B most (h - r)
      (release-IsHolding b org B h r i (omega arith) small) (ground arith) les fits
