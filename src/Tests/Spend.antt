-- ===== src/Tests/Spend.antt =====
-- The local view of spend and credit.
use keera_gateway.Base.{
  ℕ, ◌+◌, ◌<◌, ◌≤◌, ◌^◌, String, Bool, true, false, Option, none, some, List, [], ◌∷◌, ◌≡◌, ◌≢◌,
  refl, ◌↔◌, ◌⊎◌, inl, inr, All, arith,
}
use keera_gateway.Base.Int.{ℤ, pos, ◌≤ℤ◌}
use keera_gateway.Base.Int64.{add64, sub64}
use keera_gateway.Base.Dict.{get}
use keera_gateway.Policy.Calendar.{start, next, period_day, period_month}
use keera_gateway.Policy.Scope.{scope_org, scope_key, meter_cost}
use keera_gateway.Policy.Resolve.{resolve}
use keera_gateway.Registry.Budgets.{
  Budgets, BudgetExceeded, window_key, spent, tally, charge, allow, new_budgets, start_request,
  end_request,
}
use keera_gateway.Registry.Budgets.Windows.{times}
use keera_gateway.Registry.Budgets.Requests.{spent-tally}
use keera_gateway.Registry.Budgets.Running.{Runs, absent, spent-request}
use keera_gateway.Registry.Budgets.Resolved.{has_level, spent-charge-resolve, plain_names}
use keera_gateway.Registry.Budgets.Allowed.{HasRoom, IsRefusal, allow-eq-none_iff, allow-IsRefusal}
use keera_gateway.Registry.Budgets.Prepaid.{held_of, hold_credit}
use keera_gateway.Registry.Budgets.Prepaid.Holds.{
  given_back, held-given_back-hold_credit, IsHolding, hold, release, run_moves, run_moves_bounded,
}
use keera_gateway.Tests.Data.{
  some_key, org_limits, key_limits, empty_view, noon, org_month, org_requests,
}

spent-tally_example :
    spent
      (tally empty_view (org_month ∷ org_month ∷ []) meter_cost (pos 3) noon)
      scope_org
      "acme"
      period_month
      noon
    ≡ times 2 (λ a. add64 a (pos 3)) (spent empty_view scope_org "acme" period_month noon)
unfolding window_key get new_budgets
spent-tally_example =
    spent-tally empty_view scope_org "acme" period_month noon (org_month ∷ org_month ∷ [])
      plain_names.0 plain_names.3
      ((plain_names.0, plain_names.3), ((plain_names.0, plain_names.3), tt)) tt meter_cost (pos 3)

spent-charge-resolve_example :
    spent
      (charge empty_view
        (resolve some_key (some org_limits) none (some key_limits)).scopes
        (pos 3)
        noon)
      scope_key
      "k1"
      period_month
      noon
    ≡ add64 (spent empty_view scope_key "k1" period_month noon) (pos 3)
unfolding has_level get new_budgets
spent-charge-resolve_example =
    spent-charge-resolve some_key (some org_limits) none (some key_limits) empty_view (pos 3) noon
      scope_key "k1" plain_names.2 tt

spent-request_example :
    (spent (start_request empty_view (org_requests ∷ []) noon) scope_org "acme" period_day noon
      ≡ add64 (spent empty_view scope_org "acme" period_day noon) (pos 1))
    × (spent
          (end_request (start_request empty_view (org_requests ∷ []) noon) (org_requests ∷ []) noon)
          scope_org
          "acme"
          period_day
          noon
        ≡ spent
            (start_request empty_view (org_requests ∷ []) noon)
            scope_org
            "acme"
            period_day
            noon)
    × Runs
        (start period_day noon)
        (get
          (end_request
            (start_request empty_view (org_requests ∷ []) noon)
            (org_requests ∷ [])
            noon).running
          (window_key scope_org "acme" period_day))
        0
unfolding window_key get new_budgets
spent-request_example =
    spent-request empty_view scope_org "acme" period_day noon (org_requests ∷ []) 0 plain_names.0
      plain_names.4 ((plain_names.0, plain_names.4), tt) tt absent (omega arith)

allow-eq-none_iff_example :
    (allow empty_view (org_month ∷ []) noon ≡ none) ↔ All (HasRoom empty_view noon) (org_month ∷ [])
allow-eq-none_iff_example = allow-eq-none_iff empty_view (org_month ∷ []) noon

abbrev spent_view : Budgets
spent_view = record empty_view {
  w =
      (
        window_key scope_org "acme" period_month,
        record { start = start period_month noon; n = pos 900 },
      )
      ∷ [];
}

abbrev month_is_spent : BudgetExceeded
month_is_spent = record {
  scope = org_month;
  spent = pos 900;
  budget = pos 500;
  resets_at = next period_month noon;
}

allow-IsRefusal_example : IsRefusal spent_view noon month_is_spent (org_month ∷ [])
unfolding allow spent keera_gateway.Registry.Budgets.count_in get new_budgets window_key start add64
    keera_gateway.Base.Int64.wrap keera_gateway.Base.Int.◌+ℤ◌
allow-IsRefusal_example = allow-IsRefusal spent_view (org_month ∷ []) noon month_is_spent refl

abbrev paid_view : Budgets
paid_view = record empty_view {
  credit = ("acme", record { balance = pos 10; invoiced = false; charge_due = 0 }) ∷ [];
}

held-given_back-hold_credit_example :
    held_of (given_back "acme" (hold_credit paid_view "acme" (pos 5))) "acme"
    ≡ held_of paid_view "acme"
unfolding get new_budgets
held-given_back-hold_credit_example =
    held-given_back-hold_credit paid_view "acme" "acme" (pos 5) 0 refl (omega arith)

run_moves_bounded_example :
    (h : ℕ) × IsHolding
      (run_moves paid_view "acme" (hold 6 ∷ hold 6 ∷ hold 6 ∷ release 6 ∷ []))
      "acme"
      10
      h
    × ((h ≡ 0) ⊎ (h < 10 + 6))
unfolding get new_budgets
run_moves_bounded_example =
    run_moves_bounded (hold 6 ∷ hold 6 ∷ hold 6 ∷ release 6 ∷ []) paid_view "acme" 10 6 0
      (record { prepaid = refl; invoiced = refl; balance = refl; held = refl }) (inl refl)
      (omega arith) (omega arith)

abbrev acme : String
acme = "acme"
