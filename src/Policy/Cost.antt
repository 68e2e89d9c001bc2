-- ===== src/Policy/Cost.antt =====
-- What an answer costs: `Tokens.clamped`, `Model.Cost`, `Model.prices` and the fallback prices of
-- `PriceTier`, internal/policy/policy.go. Money is in micro-units, an `int64`.
pub mod Clamp
pub mod Exact
pub mod Refund
use keera_gateway.Base.{ℕ, Option, none, some, if◌then◌else◌}
use keera_gateway.Base.Int.{ℤ, pos, quot_ℕ, min_ℤ, max_ℤ, ltb_ℤ, eqb_ℤ}
use keera_gateway.Base.Int64.{add64, sub64, mul64}
use keera_gateway.Policy.Model.{Model, PriceTier, Tokens}

-- `min(max(x, 0), hi)`
unfoldable pub between : ℤ → ℤ → ℤ
between x hi = min_ℤ (max_ℤ x (pos 0)) hi

-- `Tokens.clamped`: the cache counts are kept inside the input count.
unfoldable pub clamped : Tokens → Tokens
clamped t =
    let cached = between t.cached_input t.input in
    let write = between t.cache_write (sub64 t.input cached) in
    record t {
      cached_input = cached;
      cache_write = write;
      cache_write_hour = between t.cache_write_hour write;
    }

own_prices : Model → PriceTier
own_prices m = record {
  above_tokens = pos 0;
  input_micros = m.input_micros_per_mtok;
  output_micros = m.output_micros_per_mtok;
  cached_input_micros = m.cached_input_micros_per_mtok;
  cache_write_micros = m.cache_write_micros_per_mtok;
}

-- `t != nil && inputTokens > t.AboveTokens`
tier_or : PriceTier → Option PriceTier → ℤ → PriceTier
tier_or own none input = own
tier_or own (some t) input = if ltb_ℤ t.above_tokens input then t else own

-- `Model.prices`
unfoldable pub prices : Model → ℤ → PriceTier
unfolding own_prices tier_or
prices m input = tier_or (own_prices m) m.long_prompt input

-- `PriceTier.cachedInputMicros`
unfoldable pub cached_input_price : PriceTier → ℤ
cached_input_price p =
    if eqb_ℤ p.cached_input_micros (pos 0) then p.input_micros else p.cached_input_micros

-- `PriceTier.cacheWriteMicros`
unfoldable pub cache_write_price : PriceTier → ℤ
cache_write_price p =
    if eqb_ℤ p.cache_write_micros (pos 0) then p.input_micros else p.cache_write_micros

abbrev pub per_m : ℕ
per_m = 1_000_000

-- The sum that `Cost` divides, for counts that are clamped.
unfoldable pub cost_sum : PriceTier → Tokens → ℤ
cost_sum p t =
    add64
      (add64
        (add64
          (add64 (mul64 (sub64 (sub64 t.input t.cached_input) t.cache_write) p.input_micros)
            (mul64 t.cached_input (cached_input_price p)))
          (mul64 (sub64 t.cache_write t.cache_write_hour) (cache_write_price p)))
        (mul64 (mul64 t.cache_write_hour (pos 2)) p.input_micros))
      (mul64 t.output p.output_micros)

-- `Model.Cost`: one division, so the total is rounded once.
unfoldable pub cost : Model → Tokens → ℤ
cost m t = let used = clamped t in quot_ℕ (cost_sum (prices m used.input) used) per_m
