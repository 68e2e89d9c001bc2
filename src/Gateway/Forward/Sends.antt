-- ===== src/Gateway/Forward/Sends.antt =====
-- The backends of one model that `send` of internal/gateway/forward.go calls.
use keera_gateway.Base.{
  ℕ, zero, suc, ◌+◌, ◌-◌, ◌%◌, ◌≤◌, ◌<◌, String, Option, none, some, List, [], ◌∷◌, length, All,
  ◌≡◌, ◌≢◌, refl, sym, ap, ◌∙◌, ltb, Bool-cases, inl, inr, ◌⊎◌, arith,
}
use keera_gateway.Base.Dict.{Dict, get}
use keera_gateway.Registry.Budgets.{value_or}
use keera_gateway.Policy.Model.{Model}
use keera_gateway.Gateway.Forward.{
  Reply, unbuildable, responds, cut_off, lost, undelivered, Sent, response, send_failed,
  context_ended, after_reply, try_from, last_error, model_key, send,
}
use native.Mathlib.Nat.{mod-lt, mod-eq_of_lt, mod-add-mod, add-mod_right}

-- Two places of a rotation differ.
mod-rotated : (x d n : ℕ) → 0 < d → d < n → (x + d) % n ≢ x % n
mod-rotated x d n p q e =
    let r = x % n in
    let r_lt : r < n = mod-lt x (omega arith) in
    let e' : (r + d) % n ≡ r = mod-add-mod x n d ∙ e in
    elim (Bool-cases (ltb (r + d) n)) [
      | inl in' ↦ let z : (r + d) % n ≡ r + d = mod-eq_of_lt (ground arith) in omega (arith, e', z)
      | inr past ↦
          let s : r + d - n + n ≡ r + d = ground arith in
          let z : (r + d) % n ≡ r + d - n =
            ap (λ (a : ℕ). a % n) (sym s)
            ∙ add-mod_right (r + d - n) n
            ∙ mod-eq_of_lt (ground arith) in
          omega (arith, e', z, s)
    ]

-- What calls of backends promise: the next is called only when the one before could not get the
-- request, and the last settles the result.
pub data Tries (call : ℕ → Reply) : List ℕ → Sent → Type 0 where
  unbuilt :
      (p : ℕ) (why : String) → call p ≡ unbuildable why → Tries call (p ∷ []) (send_failed why)
  answers : (p status : ℕ) → call p ≡ responds status → Tries call (p ∷ []) (response status)
  cuts : (p : ℕ) → call p ≡ cut_off → Tries call (p ∷ []) context_ended
  loses : (p : ℕ) (why : String) → call p ≡ lost why → Tries call (p ∷ []) (send_failed why)
  gives_up :
      (p : ℕ) (why : String) → call p ≡ undelivered why → Tries call (p ∷ []) (send_failed why)
  moves_on :
      (p : ℕ) (why : String) (ps : List ℕ) (s : Sent)
      → call p ≡ undelivered why
      → Tries call ps s
      → Tries call (p ∷ ps) s

-- No place stands in the list twice.
abbrev pub IsDistinct : List ℕ → Type 0
IsDistinct [] = Unit
IsDistinct (p ∷ ps) = All (λ (q : ℕ). q ≢ p) ps × IsDistinct ps

module _ (call : ℕ → Reply) (offset count : ℕ) where
  -- The places of the rounds from the `i`-th on.
  abbrev Later : ℕ → ℕ → Type 0
  Later i p = (j : ℕ) × (i ≤ j) × (j < count) × (p ≡ (offset + j) % count)

  All-Later : (i : ℕ) (ps : List ℕ) → All (Later (suc i)) ps → All (Later i) ps
  All-Later i [] h = tt
  All-Later i (p ∷ ps) ((j, a, b, e), h) = ((j, omega arith, b, e), All-Later i ps h)

  Later-other :
      (i : ℕ) (ps : List ℕ) → All (Later (suc i)) ps → All (λ (q : ℕ). q ≢ (offset + i) % count) ps
  Later-other i [] h = tt
  Later-other i (p ∷ ps) ((j, a, b, e), h) = (
    λ e'.
        let s : offset + i + (j - i) ≡ offset + j = omega arith in
        mod-rotated (offset + i) (j - i) count (omega arith) (omega arith)
          (ap (λ (a : ℕ). a % count) s ∙ sym e ∙ e'),
    Later-other i ps h,
  )

  abbrev Settles : ℕ → Sent × List ℕ → Type 0
  Settles i (s, ps) = Tries call ps s × All (Later i) ps × IsDistinct ps

  -- What a round comes to, if the later rounds settle, or there are none.
  after_reply-Settles :
      (i : ℕ) (r : Reply) (on : String → Sent × List ℕ)
      → call ((offset + i) % count) ≡ r
      → i < count
      → ((why : String) → Settles (suc i) (on why) ⊎ (on why ≡ (send_failed why, [])))
      → Settles i (after_reply ((offset + i) % count) r on)
  unfolding after_reply
  after_reply-Settles i (unbuildable why) on c l h =
      (unbuilt _ why c, ((i, omega arith, l, refl), tt), (tt, tt))
  after_reply-Settles i (responds status) on c l h =
      (answers _ status c, ((i, omega arith, l, refl), tt), (tt, tt))
  after_reply-Settles i cut_off on c l h = (cuts _ c, ((i, omega arith, l, refl), tt), (tt, tt))
  after_reply-Settles i (lost why) on c l h =
      (loses _ why c, ((i, omega arith, l, refl), tt), (tt, tt))
  after_reply-Settles i (undelivered why) on c l h = elim (h why) [
    | inr e ↦ rw e (gives_up _ why c, ((i, omega arith, l, refl), tt), (tt, tt))
    | inl g ↦ (
      moves_on _ why (on why).1 (on why).0 c g.0,
      ((i, omega arith, l, refl), All-Later i (on why).1 g.1),
      (Later-other i (on why).1 g.1, g.2),
    )
  ]

  try_from-Settles :
      (left i : ℕ) (last : Option String)
      → i + suc left ≡ count
      → Settles i (try_from call offset count (suc left) i last)
  unfolding try_from last_error
  try_from-Settles zero i last e = after_reply-Settles i _ _ refl (omega arith) (λ why. inr refl)
  try_from-Settles (suc left) i last e =
      after_reply-Settles i _ _ refl (omega arith)
        (λ why. inl (try_from-Settles left (suc i) (some why) (omega arith)))

  All-below : (i : ℕ) (ps : List ℕ) → All (Later i) ps → All (λ (p : ℕ). p < count) ps
  All-below i [] h = tt
  All-below i (p ∷ ps) ((j, a, b, e), h) =
      (rw e (mod-lt (offset + j) (omega arith)), All-below i ps h)

-- A request goes to the next backend only when the one before could not get it, and the last that is
-- called settles the result; no backend is called twice, and each is one of the model's. (The model
-- has a backend.)
pub send-Tries :
    (call : ℕ → Reply) (rr : Dict ℕ) (m : Model)
    → 0 < length m.backends
    → Tries call (send call rr m).0.1 (send call rr m).0.0
      × IsDistinct (send call rr m).0.1
      × All (λ (p : ℕ). p < length m.backends) (send call rr m).0.1
unfolding send
send-Tries call rr m p = any_count (length m.backends) p
  where
    any_count :
        (count : ℕ)
        → 0 < count
        → let r = try_from call (value_or 0 (get rr (model_key m))) count count 0 none in
          Tries call r.1 r.0 × IsDistinct r.1 × All (λ (q : ℕ). q < count) r.1
    any_count zero p = absurd (omega arith)
    any_count (suc left) p =
        let offset = value_or 0 (get rr (model_key m)) in
        let (t, later, distinct) =
          try_from-Settles call offset (suc left) left 0 none (omega arith) in
        (t, distinct, All-below call offset (suc left) 0 _ later)
