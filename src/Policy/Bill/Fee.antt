-- ===== src/Policy/Bill/Fee.antt =====
-- The gateway fee of a self-hosted model against the prices that `PriceAtFee` gives it.
use keera_gateway.Base.{ℕ, ◌+◌, ◌-◌, ◌*◌, ◌/◌, ◌≤◌, ◌≡◌, refl, true, arith, ◌∙◌, sym}
use keera_gateway.Base.Int.{ℤ, pos, pos_part, quot_ℕ, ◌≤ℤ◌, int_laws}
use keera_gateway.Base.Int64.{add64, sub64, mul64, add64-pos, mul64-pos}
use keera_gateway.Policy.Model.{Model, Tokens, Billing, PriceTier}
use keera_gateway.Policy.Cost.{
  between, clamped, cost, prices, cached_input_price, cache_write_price, per_m,
}
use keera_gateway.Policy.Cost.Clamp.{IsClamped, clamped-IsClamped}
use keera_gateway.Policy.Cost.Exact.{Within, IsPriced, exact_sum, ceiling, cost-exact, pos_of}
use keera_gateway.Policy.Bill.{fee, self_hosted, price_at_fee, line}
use keera_gateway.Policy.Bill.Laws.{used_for}

-- One price for every part prices the whole.
one_price :
    (x i c w h o f : ℕ)
    → i ≡ x + c + w
    → h ≡ 0
    → x * f + c * f + (w - h) * f + h * 2 * f + o * f ≡ (i + o) * f
one_price x i c w h o f e z = let same : w - h ≡ w = omega arith in rw (same, z, e) (omega arith)

fee_sum :
    (i o f : ℕ)
    → i ≤ ceiling
    → o ≤ ceiling
    → f ≤ ceiling
    → quot_ℕ (mul64 (add64 (pos i) (pos o)) (pos f)) per_m ≡ pos ((i + o) * f / per_m)
unfolding quot_ℕ
fee_sum i o f hi ho hf =
    let bound : (i + o) * f ≤ (ceiling + ceiling) * ceiling = grind arith in
    rw (add64-pos i o (omega arith), mul64-pos (i + o) f (omega (arith, bound))) refl

-- A fee as the price of every kind of token.
abbrev flat : ℕ → PriceTier
flat f = record {
  above_tokens = pos 0;
  input_micros = pos f;
  output_micros = pos f;
  cached_input_micros = pos f;
  cache_write_micros = pos f;
}

prices-price_at_fee :
    (m : Model) (f : ℕ) (i : ℤ)
    → self_hosted m ≡ true
    → prices (price_at_fee m (pos f)).0 i ≡ flat f
unfolding prices price_at_fee
prices-price_at_fee m f i h = rw h refl

flat-IsPriced : (f : ℕ) → f ≤ ceiling → IsPriced (flat f)
flat-IsPriced f h = omega arith

flat_fallbacks :
    (f : ℕ) → (cached_input_price (flat f) ≡ pos f) × (cache_write_price (flat f) ≡ pos f)
unfolding cached_input_price cache_write_price
flat_fallbacks f = (ground arith, ground arith)

exact_sum-flat :
    (f : ℕ) (u : Tokens)
    → IsClamped u
    → u.cache_write_hour ≡ pos 0
    → exact_sum (flat f) u ≡ (pos_part u.input + pos_part u.output) * f
exact_sum-flat f u c h = rw (flat_fallbacks f).0 (
    rw (flat_fallbacks f).1 (
      one_price (pos_part u.input - pos_part u.cached_input - pos_part u.cache_write)
        (pos_part u.input) (pos_part u.cached_input) (pos_part u.cache_write)
        (pos_part u.cache_write_hour) (pos_part u.output) f (omega int_laws) (rw h refl)))

-- No tokens kept for an hour stay none.
hour-clamped :
    (t : Tokens)
    → IsClamped (clamped t)
    → t.cache_write_hour ≡ pos 0
    → (clamped t).cache_write_hour ≡ pos 0
unfolding clamped between
hour-clamped t c h =
    let lower : pos 0 ≤ℤ between t.cache_write (sub64 t.input (between t.cached_input t.input)) =
      c.write_nonneg in
    rw h (ground arith)

cost-flat :
    (m : Model) (t : Tokens) (f : ℕ)
    → self_hosted m ≡ true
    → f ≤ ceiling
    → Within t.input
    → Within t.output
    → t.cache_write_hour ≡ pos 0
    → cost (price_at_fee m (pos f)).0 t ≡ pos ((pos_part t.input + pos_part t.output) * f / per_m)
cost-flat m t f own hf hi ho z =
    let (c, same_in, same_out) = clamped-IsClamped t hi.0 (omega int_laws) in
    let p = prices-price_at_fee m f t.input own in
    let sum : exact_sum (flat f) (clamped t) ≡ (pos_part t.input + pos_part t.output) * f =
      exact_sum-flat f (clamped t) c (hour-clamped t c z) ∙ cc (same_in, same_out) in
    cost-exact (price_at_fee m (pos f)).0 t hi ho (rw p (flat-IsPriced f hf)) ∙ rw p (rw sum refl)

fee_micros :
    (m : Model) (b : Billing) (reported counted : Tokens) (f : ℕ)
    → b.fee_micros_per_mtok ≡ pos f
    → f ≤ ceiling
    → Within (used_for m reported counted).input
    → Within (used_for m reported counted).output
    → (fee m b reported counted).micros
      ≡ pos (
          (pos_part (used_for m reported counted).input
            + pos_part (used_for m reported counted).output)
          * f
          / per_m)
unfolding fee line clamped used_for
fee_micros m b reported counted f e hf hi ho =
    let u = used_for m reported counted in
    rw (e, pos_of u.input hi.0, pos_of u.output ho.0)
      (fee_sum (pos_part u.input) (pos_part u.output) f (omega int_laws) (omega int_laws) hf)

-- On a self-hosted model that `PriceAtFee` prices at the gateway fee, the cost of the usage that a
-- call is billed on is exactly the amount of its fee line, for counts and a fee between 0 and 2^30
-- and a usage with no tokens kept for an hour.
pub fee-eq-cost :
    (m : Model) (b : Billing) (reported counted : Tokens) (f : ℕ)
    → self_hosted m ≡ true
    → b.fee_micros_per_mtok ≡ pos f
    → f ≤ ceiling
    → Within (used_for m reported counted).input
    → Within (used_for m reported counted).output
    → (used_for m reported counted).cache_write_hour ≡ pos 0
    → (fee m b reported counted).micros
      ≡ cost (price_at_fee m b.fee_micros_per_mtok).0 (used_for m reported counted)
fee-eq-cost m b reported counted f own e hf hi ho z =
    fee_micros m b reported counted f e hf hi ho
    ∙ sym (rw e (cost-flat m (used_for m reported counted) f own hf hi ho z))
