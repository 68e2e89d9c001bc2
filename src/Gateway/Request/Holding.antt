-- ===== src/Gateway/Request/Holding.antt =====
-- The credit that a request holds while internal/gateway/serve.go runs it: which changes of the budgets
-- keep it, and what `HoldCredit` and `ReleaseCredit` do to it.
use keera_gateway.Base.{
  ℕ, ◌+◌, ◌≤◌, ◌<◌, ◌^◌, String, Bool, true, false, not, List, [], ◌∷◌, ◌++◌, ◌==◌, string_eq,
  if◌then◌else◌, Bool-cases, inl, inr, ◌≡◌, refl, ap, ◌∙◌, arith, text_eq_self,
}
use keera_gateway.Base.Dict.{put, delete, get-put, get-delete}
use keera_gateway.Base.Int.{ℤ, pos, negsuc, leb_ℤ, ltb_ℤ, max_ℤ, pos_part, ◌≤ℤ◌}
use keera_gateway.Base.Int64.{add64, sub64, add64-pos, sub64-pos}
use keera_gateway.Policy.Scope.{Scope, Meter}
use keera_gateway.Registry.Budgets.{
  Budgets, Credit, tally, charge, start_request, end_scope, end_scopes, end_request,
}
use keera_gateway.Registry.Budgets.Prepaid.{
  credit_of, holds, refused as hold_refused, hold_credit, release_credit, charge_credit, held_of,
}
use keera_gateway.Gateway.Walk.Kept.{IsKept}
use keera_gateway.Gateway.Admission.Kept.{Taken, IsKeptHolding}

held-charge :
    (b : Budgets) (scopes : List Scope) (micros : ℤ) (now : ℕ)
    → (charge b scopes micros now).held ≡ b.held
unfolding charge tally
held-charge b scopes micros now = ground arith

held-tally :
    (b : Budgets) (scopes : List Scope) (meter : Meter) (n : ℤ) (now : ℕ)
    → (tally b scopes meter n now).held ≡ b.held
unfolding tally
held-tally b scopes meter n now = ground arith

held-start_request :
    (b : Budgets) (scopes : List Scope) (now : ℕ) → (start_request b scopes now).held ≡ b.held
unfolding start_request
held-start_request b scopes now = refl

held-end_scope : (b : Budgets) (sc : Scope) (now : ℕ) → (end_scope b sc now).held ≡ b.held
unfolding end_scope
held-end_scope b sc now = ground arith

held-end_scopes :
    (scopes : List Scope) (b : Budgets) (now : ℕ) → (end_scopes b scopes now).held ≡ b.held
unfolding end_scopes
held-end_scopes [] b now = refl
held-end_scopes (sc ∷ scopes) b now =
    held-end_scopes scopes (end_scope b sc now) now ∙ held-end_scope b sc now

pub held-end_request :
    (b : Budgets) (scopes : List Scope) (now : ℕ) → (end_request b scopes now).held ≡ b.held
unfolding end_request
held-end_request b scopes now = ground (arith, held-end_scopes scopes b now)

pub held-charge_credit :
    (b : Budgets) (org : String) (n : ℤ) → (charge_credit b org n).held ≡ b.held
unfolding charge_credit
held-charge_credit b org n = ground arith

max-pos_part : (a : ℤ) → max_ℤ a (pos 0) ≡ pos (pos_part a)
max-pos_part (pos n) = ground arith
max-pos_part (negsuc n) = ground arith

abbrev pub AnyScope : Scope → Type 0
AnyScope sc = Unit

module _ (before : Budgets) (org : String) (h most : ℕ) (room : h + most < 2 ^ 63) where
  -- The organisation's requests hold `k` more than before.
  abbrev pub HoldsMore : ℕ → Budgets → Type 0
  HoldsMore k b = (o : String) → held_of b o ≡ (if org == o then pos (h + k) else held_of before o)

  abbrev pub Holding : ℤ → Budgets → List Scope → Type 0
  Holding held b scopes = (k : ℕ) × (held ≡ pos k) × (k ≤ most) × HoldsMore k b

  pub same_held :
      (held : ℤ) (b b' : Budgets) (scopes scopes' : List Scope)
      → b'.held ≡ b.held
      → Holding held b scopes
      → Holding held b' scopes'
  same_held held b b' scopes scopes' e (k, held_k, le, more) = (k, held_k, le, λ o. rw e (more o))

  Holding-IsKept : (now : ℕ) (held : ℤ) → IsKept now (Holding held) AnyScope
  Holding-IsKept now held = record {
    charges = λ b scopes by micros.
        same_held held b (charge b by micros now) scopes scopes (held-charge b by micros now);
    starts = λ b scopes more plain.
        same_held held b (start_request b more now) scopes (scopes ++ more)
          (held-start_request b more now);
  }

  put-HoldsMore :
      (b : Budgets) (j k : ℕ)
      → HoldsMore j b
      → HoldsMore k (record b { held = put b.held org (pos (h + k)) })
  put-HoldsMore b j k more o = elim (Bool-cases (org == o)) [
    | inl same ↦ rw (get-put, same) refl
    | inr other ↦ rw (get-put, other) (ground (arith, more o, other))
  ]

  more_there : (b : Budgets) (k : ℕ) → HoldsMore k b → held_of b org ≡ pos (h + k)
  more_there b k more = ground (arith, more org, text_eq_self org)

  -- What `HoldCredit` does for an organisation with credit left.
  held_by :
      (micros : ℤ) (b : Budgets) (scopes : List Scope)
      → micros ≤ℤ pos most
      → HoldsMore 0 b
      → Holding
          (pos (pos_part micros))
          (if ltb_ℤ (pos 0) micros
            then record b { held = put b.held org (add64 (held_of b org) micros) }
            else b)
          scopes
  held_by micros b scopes le more = by_size micros (ltb_ℤ (pos 0) micros) refl le
    where
      by_size :
          (a : ℤ) (more' : Bool)
          → ltb_ℤ (pos 0) a ≡ more'
          → a ≤ℤ pos most
          → Holding
              (pos (pos_part a))
              (if more' then record b { held = put b.held org (add64 (held_of b org) a) } else b)
              scopes
      by_size a false e le' =
          let z : pos_part a ≡ 0 = ground arith in rw z (0, refl, omega arith, more)
      by_size (negsuc m) true e le' = absurd (ground arith)
      by_size (pos m) true e le' =
          let e' : add64 (held_of b org) (pos m) ≡ pos (h + m) =
            ap (λ (a : ℤ). add64 a (pos m)) (more_there b 0 more ∙ ap pos (omega arith))
            ∙ add64-pos h m (omega arith) in
          rw e' (m, refl, omega arith, put-HoldsMore b 0 m more)

  none_more : (b : Budgets) (scopes : List Scope) → Holding (pos 0) b scopes → HoldsMore 0 b
  none_more b scopes (k, e, le, more) = let z : k ≡ 0 = ground arith in rw z at more

  hold_credit-Taken :
      (micros : ℤ) (b : Budgets) (scopes : List Scope)
      → micros ≤ℤ pos most
      → Holding (pos 0) b scopes
      → Taken Holding scopes (hold_credit b org micros)
  unfolding hold_credit
  hold_credit-Taken micros b scopes le g =
      by_org b.prepaid c.invoiced (leb_ℤ (sub64 c.balance (held_of b org)) (pos 0))
    where
      c : Credit
      c = credit_of b org

      by_org :
          (prepaid invoiced spent' : Bool)
          → Taken Holding scopes (
              if not prepaid
              then (b, holds (pos 0))
              else if invoiced
              then (b, holds (pos 0))
              else if spent'
              then (b, hold_refused c.balance (held_of b org))
              else (
                (if ltb_ℤ (pos 0) micros
                    then record b { held = put b.held org (add64 (held_of b org) micros) }
                    else b),
                holds (max_ℤ micros (pos 0)),
              ))
      by_org false invoiced spent' = g
      by_org true true spent' = g
      by_org true false true = g
      by_org true false false =
          rw (max-pos_part micros) (held_by micros b scopes le (none_more b scopes g))

  -- What `ReleaseCredit` gives back.
  pub release-HoldsMore :
      (held : ℤ) (b : Budgets) (scopes : List Scope)
      → Holding held b scopes
      → HoldsMore 0 (release_credit b org held)
  unfolding release_credit
  release-HoldsMore held b scopes (k, e, le, more) =
      by_rest (leb_ℤ held (pos 0)) (ltb_ℤ (pos 0) left) refl refl
    where
      left : ℤ
      left = sub64 (held_of b org) held

      left_eq : left ≡ pos (h + 0)
      left_eq =
          ap (λ (a : ℤ). sub64 a held) (more_there b k more)
          ∙ ap (λ (a : ℤ). sub64 (pos (h + k)) a) e
          ∙ sub64-pos (h + k) k (omega arith) (omega arith)
          ∙ ap pos (omega arith)

      by_rest :
          (nothing rest : Bool)
          → leb_ℤ held (pos 0) ≡ nothing
          → ltb_ℤ (pos 0) left ≡ rest
          → HoldsMore 0 (
              if nothing
              then b
              else if rest
              then record b { held = put b.held org left }
              else record b { held = delete b.held org })
      by_rest true rest e' e'' = let z : k ≡ 0 = ground arith in rw z at more
      by_rest false true e' e'' = rw left_eq (put-HoldsMore b k 0 more)
      by_rest false false e' e'' =
          let none_left : h ≡ 0 = ground (arith, e'', left_eq) in
          λ o. elim (Bool-cases (org == o)) [
            | inl same ↦ rw (get-delete, same) (ground (arith, none_left))
            | inr other ↦ rw (get-delete, other) (ground (arith, more o, other))
          ]

  pub Holding-IsKeptHolding :
      (now : ℕ) (micros : ℤ) → micros ≤ℤ pos most → IsKeptHolding now org micros Holding AnyScope
  Holding-IsKeptHolding now micros le = record {
    walks = Holding-IsKept now;
    tallies = λ held b scopes by meter n.
        same_held held b (tally b by meter n now) scopes scopes (held-tally b by meter n now);
    pays_bills = λ held b scopes n.
        same_held held b (charge_credit b org n) scopes scopes (held-charge_credit b org n);
    takes = λ b scopes. hold_credit-Taken micros b scopes le;
  }
