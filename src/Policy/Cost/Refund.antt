-- ===== src/Policy/Cost/Refund.antt =====
-- What `Cost` makes of a negative input count, which `clamped` lets through.
use keera_gateway.Base.{ℕ, zero, suc, ◌*◌, ◌^◌, ◌≤◌, ◌<◌, ◌≡◌, arith}
use keera_gateway.Base.Int.{ℤ, pos, negsuc, sub_ℕ, quot_ℕ, ◌<ℤ◌, ◌+ℤ◌}
use keera_gateway.Base.Int64.{add64, wrap, sub64_self, mul64-zero, mul64-negsuc}
use keera_gateway.Policy.Model.{Model, Tokens}
use keera_gateway.Policy.Cost.{between, clamped, cost, cost_sum, prices, cached_input_price, per_m}

-- Every clamped part is pressed against a bound of zero or less.
between_negsuc : (x : ℤ) (n : ℕ) → between x (negsuc n) ≡ negsuc n
unfolding between
between_negsuc (pos x) n = ground arith
between_negsuc (negsuc x) n = ground arith

between_zero : (x : ℤ) → between x (pos 0) ≡ pos 0
unfolding between
between_zero (pos x) = ground arith
between_zero (negsuc x) = ground arith

refund_sum :
    (k : ℕ)
    → k < 2 ^ 63
    → 0 < k
    → add64 (add64 (add64 (add64 (pos 0) (sub_ℕ 0 k)) (pos 0)) (pos 0)) (pos 0) ≡ sub_ℕ 0 k
unfolding add64 wrap ◌+ℤ◌
refund_sum k h p = ground arith

quot-negative : (k : ℕ) → per_m ≤ k → quot_ℕ (sub_ℕ 0 k) per_m <ℤ pos 0
unfolding quot_ℕ
quot-negative zero h = absurd (omega arith)
quot-negative (suc k) h = ground arith

-- A usage report with a negative input count and no output has a negative cost, as soon as the
-- count times the price of a cached token comes to one micro-unit and does not overflow: the call
-- is booked as a refund.
pub cost-refund :
    (m : Model) (t : Tokens) (n price : ℕ)
    → t.input ≡ negsuc n
    → t.output ≡ pos 0
    → cached_input_price (prices m (negsuc n)) ≡ pos price
    → per_m ≤ suc n * price
    → suc n * price < 2 ^ 63
    → cost m t <ℤ pos 0
unfolding cost cost_sum clamped
cost-refund m t n price ei eo ep big small =
    simp
      (ei, eo, between_negsuc, sub64_self, between_zero, mul64-zero, ep, mul64-negsuc n price small)
      (rw (refund_sum (suc n * price) small (omega arith)) (quot-negative (suc n * price) big))
