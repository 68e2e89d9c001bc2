-- ===== src/Gateway/Request/Held.antt =====
-- The credit that internal/gateway/serve.go holds for a request: `serve` releases what it holds.
use keera_gateway.Base.{
  ℕ, ◌+◌, ◌<◌, ◌^◌, String, Bool, true, false, not, List, [], ◌∷◌, ◌==◌, string_eq, if◌then◌else◌,
  All, Bool-cases, inl, inr, ◌≡◌, refl, sym, ap, ◌∙◌, arith, text_eq_iff,
}
use keera_gateway.Base.Int.{pos, ◌≤ℤ◌}
use keera_gateway.Policy.Router.{Router, Step, fields, steps, router_scopes}
use keera_gateway.Policy.Scope.{Scope}
use keera_gateway.Registry.Budgets.{end_request}
use keera_gateway.Registry.Budgets.Prepaid.{charge_credit, held_of}
use keera_gateway.Gateway.Target.{
  Named, to_model, to_router, Targeted, target_refused, targets, target,
}
use keera_gateway.Gateway.Credit.{credit_sum}
use keera_gateway.Gateway.Walk.{Call, hook_bills}
use keera_gateway.Gateway.Walk.Kept.{HasPlainSteps}
use keera_gateway.Gateway.Admission.{Site, Final, End, recorded, closed, malformed, off_target}
use keera_gateway.Gateway.Request.{finally, targeted, serve}
use keera_gateway.Gateway.Admission.Kept.{may_take}
use keera_gateway.Gateway.Request.Kept.{IsPlain, from_admit-Good}
use keera_gateway.Gateway.Request.Holding.{
  held-end_request, held-charge_credit, AnyScope, HoldsMore, Holding, same_held, release-HoldsMore,
  Holding-IsKeptHolding,
}

any_scopes : (scopes : List Scope) → All AnyScope scopes
any_scopes [] = tt
any_scopes (sc ∷ scopes) = (tt, any_scopes scopes)

any_steps : (q : Router) (l : List Step) → HasPlainSteps AnyScope q l
any_steps q [] = tt
any_steps q (st ∷ l) = (any_scopes (router_scopes q (fields st)), any_steps q l)

any_limits : (n : Named) → IsPlain AnyScope n
any_limits (to_model m) = tt
any_limits (to_router q) = any_steps q (steps q.start)

module _ (s : Site) (c : Call) (h most : ℕ) (room : h + most < 2 ^ 63)
    (there : held_of c.budgets s.res.key.org_id ≡ pos h) where
  abbrev Backed : Final → Type 0
  Backed (e, st) =
      Holding c.budgets s.res.key.org_id h most room st.held st.call.budgets st.call.scopes

  unchanged : HoldsMore c.budgets s.res.key.org_id h most room 0 c.budgets
  unchanged o = elim (Bool-cases (s.res.key.org_id == o)) [
    | inl same ↦
        let e = (text_eq_iff s.res.key.org_id o).0 same in
        rw (same, ← e) (there ∙ ap pos (omega arith))
    | inr other ↦ rw other refl
  ]

  begins : Holding c.budgets s.res.key.org_id h most room (pos 0) c.budgets c.scopes
  begins = (0, refl, omega arith, unchanged)

  abbrev Back : End × Call → Type 0
  Back (e, c') = (o : String) → held_of c'.budgets o ≡ held_of c.budgets o

  finally-Back : (now : ℕ) (f : Final) → Backed f → Back (finally s now f)
  unfolding finally
  finally-Back now (e, st) g o =
      let b = end_request st.call.budgets st.call.scopes now in
      let ended =
        same_held c.budgets s.res.key.org_id h most room st.held st.call.budgets b st.call.scopes
          st.call.scopes (held-end_request st.call.budgets st.call.scopes now) g in
      release-HoldsMore c.budgets s.res.key.org_id h most room st.held b st.call.scopes ended o
      ∙ sym (unchanged o)

  closed-Backed : (why : End) → Backed (closed s why (record { call = c; held = pos 0 }))
  unfolding closed recorded
  closed-Backed why =
      let n = credit_sum (hook_bills c) (pos 0) in
      same_held c.budgets s.res.key.org_id h most room (pos 0) c.budgets
        (charge_credit c.budgets s.res.key.org_id n) c.scopes c.scopes
        (held-charge_credit c.budgets s.res.key.org_id n) begins

  targeted-Back :
      (r : Targeted)
      → ((n : Named) → r ≡ targets n → may_take s n ≤ℤ pos most)
      → Back (targeted s c r)
  unfolding targeted
  targeted-Back (target_refused why) fits = finally-Back 0 _ (closed-Backed (off_target why))
  targeted-Back (targets n) fits = finally-Back s.world.now _ (
      from_admit-Good s n (Holding c.budgets s.res.key.org_id h most room) AnyScope
        (Holding-IsKeptHolding c.budgets s.res.key.org_id h most room s.world.now (may_take s n)
          (fits n refl))
        c (any_scopes s.res.quotas) (any_limits n) begins)

  -- Whatever becomes of a request, it gives back the credit that it held: the running requests of
  -- every organisation hold as much after it as before. What they hold for the key's organisation is
  -- not negative, and an `int64` holds it together with what `creditHold` takes for what the request names.
  pub held-serve :
      ((n : Named)
        → target s.world.find s.find_router s.printable s.signed_in s.res s.alias s.world.kind
          ≡ targets n
        → may_take s n ≤ℤ pos most)
      → (o : String) → held_of (serve s c).1.budgets o ≡ held_of c.budgets o
  unfolding serve
  held-serve fits = by_body s.decoded
    where
      by_body :
          (decoded : Bool)
          → Back (
              if not decoded
              then finally s 0 (closed s malformed (record { call = c; held = pos 0 }))
              else targeted s c (
                  target s.world.find s.find_router s.printable s.signed_in s.res s.alias
                    s.world.kind))
      by_body true =
          targeted-Back
            (target s.world.find s.find_router s.printable s.signed_in s.res s.alias s.world.kind)
            fits
      by_body false =
          finally-Back 0 (closed s malformed (record { call = c; held = pos 0 }))
            (closed-Backed malformed)
