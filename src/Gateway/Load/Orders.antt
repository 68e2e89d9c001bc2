-- ===== src/Gateway/Load/Orders.antt =====
-- A measured order of internal/gateway/load.go tries every destination.
use keera_gateway.Base.{
  ℕ, String, not, ◌||◌, List, [], ◌∷◌, ◌==◌, string_eq, nat_eq, ltb, length, contains, any,
  Bool-cases, ◌≡◌, refl, ◌∙◌, sym, inl, inr, arith,
}
use keera_gateway.Policy.Route.{RouteMode, mode_measures}
use keera_gateway.Gateway.Sorting.{sort_stable, any-sort_stable}
use keera_gateway.Gateway.Load.{Loads, order, goes_before, read}

contains-any_of : (l : List String) (a : String) → contains l a ≡ any (λ (x : String). x == a) l
unfolding contains
contains-any_of [] a = refl
contains-any_of (x ∷ l) a = ground (arith, contains-any_of l a)

-- What is measured orders the destinations, and neither loses nor adds one.
pub contains-order :
    (mode : RouteMode) (key : String → String) (l : Loads) (aliases : List String) (now : ℕ)
    (a : String)
    → contains (order mode key l aliases now) a ≡ contains aliases a
unfolding order
contains-order mode key l aliases now a =
    elim (Bool-cases (ltb (length aliases) 2 || not (mode_measures mode))) [
      | inl written ↦ rw written refl
      | inr measured ↦ rw measured (
          contains-any_of
            (sort_stable (λ x y. goes_before mode (read l (key x) now) (read l (key y) now))
              aliases)
            a
          ∙ (any-sort_stable (λ x y. goes_before mode (read l (key x) now) (read l (key y) now))
                (λ (x : String). x == a) aliases
              ∙ sym (contains-any_of aliases a)))
    ]
