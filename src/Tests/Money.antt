-- ===== src/Tests/Money.antt =====
-- Costs, bills and the calendar.
use keera_gateway.Base.{◌/◌, ◌+◌, ◌≤◌, ◌<◌, ◌≡◌, refl, ◌↔◌, arith}
use keera_gateway.Base.Int.{pos, negsuc, ◌<ℤ◌}
use keera_gateway.Policy.Calendar.{start, next, period_month}
use keera_gateway.Policy.Calendar.Windows.{windows_divide_time}
use keera_gateway.Policy.Model.{Tokens}
use keera_gateway.Policy.Cost.{clamped, cost, prices, per_m, cached_input_price}
use keera_gateway.Policy.Cost.Exact.{exact_sum, cost-exact}
use keera_gateway.Policy.Cost.Refund.{cost-refund}
use keera_gateway.Tests.Data.{fast, usage, noon}

abbrev odd_usage : Tokens
odd_usage = record {
  input = pos 100;
  cached_input = pos 150;
  cache_write = pos 30;
  cache_write_hour = negsuc 4;
  output = pos 7;
}

cost-exact_example :
    cost fast usage ≡ pos (exact_sum (prices fast (pos 1_000_000)) (clamped usage) / per_m)
unfolding prices
cost-exact_example = cost-exact fast usage (omega arith) (omega arith) (record {
  input = omega arith;
  output = omega arith;
  cached = omega arith;
  write = omega arith;
})

abbrev bad_usage : Tokens
bad_usage = record usage { input = negsuc 999_999; output = pos 0 }

cost-refund_example : cost fast bad_usage <ℤ pos 0
unfolding cached_input_price prices
cost-refund_example =
    cost-refund fast bad_usage 999_999 200_000 refl refl refl (omega arith) (omega arith)

windows_divide_time_example :
    (start period_month noon ≤ noon)
    × (noon < next period_month noon)
    × ((start period_month (noon + 1) ≡ start period_month noon)
        ↔ ((start period_month noon ≤ noon + 1) × (noon + 1 < next period_month noon)))
    × (start period_month (next period_month noon) ≡ next period_month noon)
windows_divide_time_example = windows_divide_time period_month noon (noon + 1)
