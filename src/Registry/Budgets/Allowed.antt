-- ===== src/Registry/Budgets/Allowed.antt =====
-- When `Allow` refuses.
use keera_gateway.Base.{
  ℕ, ◌≡◌, refl, ◌↔◌, ◌⊎◌, inl, inr, arith, none, some, List, [], ◌∷◌, All, Bool-cases,
}
use mathlib.Core.Path.{subst}
use keera_gateway.Base.Int.{pos, ◌≤ℤ◌, ◌<ℤ◌, leb_ℤ}
use keera_gateway.Policy.Calendar.{next}
use keera_gateway.Policy.Scope.{Scope}
use keera_gateway.Registry.Budgets.{Budgets, BudgetExceeded, spent, allow}

-- A scope's budget has room at a time, or it has none to spend.
abbrev pub HasRoom : Budgets → ℕ → Scope → Type 0
HasRoom b now sc =
    (sc.budget_micros ≤ℤ pos 0) ⊎ (spent b sc.type sc.id sc.period now <ℤ sc.budget_micros)

-- A request is allowed exactly when every scope with a budget has spent less than it.
pub allow-eq-none_iff :
    (b : Budgets) (scopes : List Scope) (now : ℕ)
    → (allow b scopes now ≡ none) ↔ All (HasRoom b now) scopes
unfolding allow
allow-eq-none_iff b [] now = (λ _. tt, λ _. refl)
allow-eq-none_iff b (sc ∷ scopes) now =
    let ih = allow-eq-none_iff b scopes now in
    let used = spent b sc.type sc.id sc.period now in
    elim (Bool-cases (leb_ℤ sc.budget_micros (pos 0))) [
      | inl free ↦ rw free (λ e. (inl (ground arith), ih.0 e), λ a. ih.1 a.1)
      | inr has ↦ rw has (elim (Bool-cases (leb_ℤ sc.budget_micros used)) [
        | inl gone ↦ rw gone (λ e. cc, λ a. absurd (ground arith))
        | inr left ↦ rw left (λ e. (inr (ground arith), ih.0 e), λ a. ih.1 a.1)
      ])
    ]

-- A refusal is about the first scope whose budget is spent: every scope before it has room.
pub data IsRefusal (b : Budgets) (now : ℕ) (e : BudgetExceeded) : List Scope → Type 0 where
  here :
      {scopes : List Scope}
      → pos 0 <ℤ e.scope.budget_micros
      → e.spent ≡ spent b e.scope.type e.scope.id e.scope.period now
      → e.budget ≡ e.scope.budget_micros
      → e.budget ≤ℤ e.spent
      → e.resets_at ≡ next e.scope.period now
      → IsRefusal b now e (e.scope ∷ scopes)
  there :
      {sc : Scope} {scopes : List Scope}
      → HasRoom b now sc
      → IsRefusal b now e scopes
      → IsRefusal b now e (sc ∷ scopes)

-- A refusal names the first scope, in order, whose positive budget is spent, with what it has
-- spent, the budget, and the start of the next period.
pub allow-IsRefusal :
    (b : Budgets) (scopes : List Scope) (now : ℕ) (e : BudgetExceeded)
    → allow b scopes now ≡ some e
    → IsRefusal b now e scopes
unfolding allow
allow-IsRefusal b [] now e h = cc
allow-IsRefusal b (sc ∷ scopes) now e h =
    let used = spent b sc.type sc.id sc.period now in
    elim (Bool-cases (leb_ℤ sc.budget_micros (pos 0))) [
      | inl free ↦ there (inl (ground arith)) (allow-IsRefusal b scopes now e (ground arith))
      | inr has ↦ elim (Bool-cases (leb_ℤ sc.budget_micros used)) [
        | inl gone ↦
            let r : BudgetExceeded = record {
              scope = sc;
              spent = used;
              budget = sc.budget_micros;
              resets_at = next sc.period now;
            } in
            let taken : some r ≡ some e = rw (has, gone) at h in
            let same : r ≡ e = cc taken in
            subst (λ (x : BudgetExceeded). IsRefusal b now x (sc ∷ scopes)) same
              (here (ground arith) refl refl (ground arith) refl)
        | inr left ↦ there (inr (ground arith)) (allow-IsRefusal b scopes now e (ground arith))
      ]
    ]
