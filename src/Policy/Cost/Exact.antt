-- ===== src/Policy/Cost/Exact.antt =====
-- `Cost` over counts and prices of up to 2^30: no operation wraps, and the result is the exact sum,
-- rounded down once.
use keera_gateway.Base.{ℕ, ◌+◌, ◌-◌, ◌*◌, ◌/◌, ◌^◌, ◌≤◌, ◌≡◌, refl, arith}
use keera_gateway.Base.Int.{ℤ, pos, negsuc, pos_part, quot_ℕ, ◌≤ℤ◌, int_laws}
use keera_gateway.Base.Int64.{add64, mul64, add64-pos, sub64-pos, mul64-pos}
use keera_gateway.Policy.Model.{Model, PriceTier, Tokens}
use keera_gateway.Policy.Cost.{
  clamped, cost, cost_sum, prices, cached_input_price, cache_write_price, per_m,
}
use keera_gateway.Policy.Cost.Clamp.{IsClamped, clamped-IsClamped}

-- 2^30 tokens, or 2^30 micro-units per million tokens, is more than any model has or costs.
abbrev pub ceiling : ℕ
ceiling = 2 ^ 30

mul_bound : (a b k : ℕ) → a ≤ k → b ≤ k → a * b ≤ k * k
mul_bound a b k p q = grind arith

-- The price of naturals.
abbrev pub exact : (plain cached write hour out p_in p_cached p_write p_out : ℕ) → ℕ
exact plain cached write hour out p_in p_cached p_write p_out =
    plain * p_in + cached * p_cached + write * p_write + hour * 2 * p_in + out * p_out

module _ (plain cached write hour out p_in p_cached p_write p_out : ℕ) (b1 : plain ≤ ceiling)
    (b2 : cached ≤ ceiling) (b3 : write ≤ ceiling) (b4 : hour ≤ ceiling) (b5 : out ≤ ceiling)
    (c1 : p_in ≤ ceiling) (c2 : p_cached ≤ ceiling) (c3 : p_write ≤ ceiling)
    (c4 : p_out ≤ ceiling) where
  hour_bound : hour * 2 * p_in ≤ 2 * ceiling * ceiling
  hour_bound = omega (arith, mul_bound hour p_in ceiling b4 c1)

  sum_exact :
      add64
        (add64
          (add64
            (add64 (mul64 (pos plain) (pos p_in)) (mul64 (pos cached) (pos p_cached)))
            (mul64 (pos write) (pos p_write)))
          (mul64 (mul64 (pos hour) (pos 2)) (pos p_in)))
        (mul64 (pos out) (pos p_out))
      ≡ pos (exact plain cached write hour out p_in p_cached p_write p_out)
  sum_exact =
      let k1 = mul_bound plain p_in ceiling b1 c1 in
      let k2 = mul_bound cached p_cached ceiling b2 c2 in
      let k3 = mul_bound write p_write ceiling b3 c3 in
      let k5 = mul_bound out p_out ceiling b5 c4 in
      rw (
        mul64-pos plain p_in (omega (arith, k1)),
        mul64-pos cached p_cached (omega (arith, k2)),
        mul64-pos write p_write (omega (arith, k3)),
        mul64-pos hour 2 (omega arith),
        mul64-pos (hour * 2) p_in (omega (arith, hour_bound)),
        mul64-pos out p_out (omega (arith, k5)),
        add64-pos (plain * p_in) (cached * p_cached) (omega (arith, k1, k2)),
        add64-pos (plain * p_in + cached * p_cached) (write * p_write) (omega (arith, k1, k2, k3)),
        add64-pos (plain * p_in + cached * p_cached + write * p_write) (hour * 2 * p_in)
            (omega (arith, k1, k2, k3, hour_bound)),
        add64-pos (plain * p_in + cached * p_cached + write * p_write + hour * 2 * p_in)
            (out * p_out) (omega (arith, k1, k2, k3, k5, hour_bound)),
      )

-- The counts and prices as naturals, related to the source's integers.
module _ (p : PriceTier) (t : Tokens) (i c w h o p_in p_cached p_write p_out : ℕ)
    (e1 : p.input_micros ≡ pos p_in) (e2 : cached_input_price p ≡ pos p_cached)
    (e3 : cache_write_price p ≡ pos p_write) (e4 : p.output_micros ≡ pos p_out)
    (f1 : t.input ≡ pos i) (f2 : t.cached_input ≡ pos c) (f3 : t.cache_write ≡ pos w)
    (f4 : t.cache_write_hour ≡ pos h) (f5 : t.output ≡ pos o) (parts : c + w ≤ i) (hour : h ≤ w)
    (b1 : i ≤ ceiling) (b2 : o ≤ ceiling) (c1 : p_in ≤ ceiling) (c2 : p_cached ≤ ceiling)
    (c3 : p_write ≤ ceiling) (c4 : p_out ≤ ceiling) where
  cost_sum-pos : cost_sum p t ≡ pos (exact (i - c - w) c (w - h) h o p_in p_cached p_write p_out)
  unfolding cost_sum
  cost_sum-pos =
      rw
        (
          e2,
          e3,
          e1,
          e4,
          f1,
          f2,
          f3,
          f4,
          f5,
          sub64-pos i c (omega arith) (omega arith),
          sub64-pos (i - c) w (omega arith) (omega arith),
          sub64-pos w h (omega arith) (omega arith),
        )
        (sum_exact (i - c - w) c (w - h) h o p_in p_cached p_write p_out (omega arith) (omega arith)
          (omega arith) (omega arith) (omega arith) c1 c2 c3 c4)

-- A number of at least zero is its natural part.
pub pos_of : (a : ℤ) → pos 0 ≤ℤ a → a ≡ pos (pos_part a)
pos_of (pos n) h = refl
pos_of (negsuc n) h = absurd (omega arith)

abbrev pub Within : ℤ → Type 0
Within a = (pos 0 ≤ℤ a) × (a ≤ℤ pos ceiling)

-- Prices of at least zero, and no more than `ceiling`.
pub record IsPriced (p : PriceTier) : Type 0 where
  pub input : Within p.input_micros
  pub output : Within p.output_micros
  pub cached : Within p.cached_input_micros
  pub write : Within p.cache_write_micros

pub cached_input_price-Within : {p : PriceTier} → IsPriced p → Within (cached_input_price p)
unfolding cached_input_price
cached_input_price-Within h = ground arith

pub cache_write_price-Within : {p : PriceTier} → IsPriced p → Within (cache_write_price p)
unfolding cache_write_price
cache_write_price-Within h = ground arith

-- The exact price of clamped counts, as a natural number of millionths of a micro-unit.
abbrev pub exact_sum : PriceTier → Tokens → ℕ
exact_sum p u =
    exact (pos_part u.input - pos_part u.cached_input - pos_part u.cache_write)
      (pos_part u.cached_input) (pos_part u.cache_write - pos_part u.cache_write_hour)
      (pos_part u.cache_write_hour) (pos_part u.output) (pos_part p.input_micros)
      (pos_part (cached_input_price p)) (pos_part (cache_write_price p)) (pos_part p.output_micros)

cost_sum-exact :
    (p : PriceTier) (u : Tokens)
    → IsPriced p
    → IsClamped u
    → Within u.input
    → Within u.output
    → cost_sum p u ≡ pos (exact_sum p u)
cost_sum-exact p u k c bi bo =
    let kc = cached_input_price-Within k in
    let kw = cache_write_price-Within k in
    cost_sum-pos p u (pos_part u.input) (pos_part u.cached_input) (pos_part u.cache_write)
      (pos_part u.cache_write_hour) (pos_part u.output) (pos_part p.input_micros)
      (pos_part (cached_input_price p)) (pos_part (cache_write_price p)) (pos_part p.output_micros)
      (pos_of _ k.input.0) (pos_of _ kc.0) (pos_of _ kw.0) (pos_of _ k.output.0) (pos_of _ bi.0)
      (pos_of _ c.cached_nonneg) (pos_of _ c.write_nonneg) (pos_of _ c.hour_nonneg) (pos_of _ bo.0)
      (omega int_laws) (omega int_laws) (omega int_laws) (omega int_laws) (omega int_laws)
      (omega int_laws) (omega int_laws) (omega int_laws)

-- For non-negative input and output counts of at most 2^30, and non-negative prices of at most
-- 2^30, `Cost` is the exact sum of every part of the clamped usage at its own price, divided once
-- by a million and rounded down. In particular it is not negative and nothing wraps around.
pub cost-exact :
    (m : Model) (t : Tokens)
    → Within t.input
    → Within t.output
    → IsPriced (prices m t.input)
    → cost m t ≡ pos (exact_sum (prices m t.input) (clamped t) / per_m)
unfolding clamped cost quot_ℕ
cost-exact m t bi bo k =
    let (c, same_in, same_out) = clamped-IsClamped t bi.0 (omega int_laws) in
    rw (cost, cost_sum-exact (prices m t.input) (clamped t) k c bi bo) refl
