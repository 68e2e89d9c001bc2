-- ===== src/Policy/Calendar/Years.antt =====
-- Every day lies in exactly one year.
use Prim.Native.Nat.{min}
use native.Mathlib.Nat.{add-zero}
use native.Mathlib.Decide.{dec_lt}
use keera_gateway.Base.{ℕ, zero, suc, ◌+◌, ◌-◌, ◌*◌, ◌/◌, ◌%◌, ◌≤◌, ◌<◌, ◌≡◌, arith, ◌⊎◌, inl, inr}
use keera_gateway.Policy.Calendar.{days_before, year_of, leap_day}

-- A year has 365 days and its leap day.
pub days_before-suc : (y : ℕ) → days_before (suc y) ≡ days_before y + 365 + leap_day y
unfolding days_before leap_day
days_before-suc y = ground arith

days_before-step : (k y : ℕ) → days_before (suc y) ≤ days_before (suc y + k)
days_before-step zero y = rw (add-zero (suc y)) (omega arith)
days_before-step (suc k) y =
    let more = days_before-suc (suc y + k) in
    let e : suc y + suc k ≡ suc (suc y + k) = omega arith in
    rw e (omega (arith, days_before-step k y, more))

days_before_mono : (y z : ℕ) → y < z → days_before (suc y) ≤ days_before z
days_before_mono y z h =
    let e : z ≡ suc y + (z - suc y) = omega arith in rw e (days_before-step (z - suc y) y)

-- The year's number by its place in the cycles.
days_before-cycles :
    (a b c e : ℕ)
    → b ≤ 3
    → c ≤ 24
    → e ≤ 3
    → days_before (400 * a + 100 * b + 4 * c + e) ≡ 146097 * a + 36524 * b + 1461 * c + 365 * e
unfolding days_before
days_before-cycles a b c e hb hc he = omega arith

leap_day_cycles :
    (a b c e : ℕ)
    → b ≤ 3
    → c ≤ 24
    → e ≡ 3
    → (c ≡ 24 → b ≡ 3)
    → leap_day (400 * a + 100 * b + 4 * c + e) ≡ 1
unfolding leap_day
leap_day_cycles a b c e hb hc he h = ground arith

-- The digits of a day in the cycles, and what is left over.
record Digits (d : ℕ) : Type 0 where
  a : ℕ
  b : ℕ
  c : ℕ
  e : ℕ
  r : ℕ
  b_le : b ≤ 3
  c_le : c ≤ 24
  e_le : e ≤ 3
  year : year_of d ≡ 400 * a + 100 * b + 4 * c + e
  sum : d ≡ 146097 * a + 36524 * b + 1461 * c + 365 * e + r
  rest : (r < 365) ⊎ ((r ≡ 365) × (e ≡ 3) × (c ≡ 24 → b ≡ 3))

digit_sum : (d : ℕ) → Digits d
unfolding year_of
digit_sum d =
    let b = min 3 (d % 146097 / 36524) in
    let d2 = d % 146097 - b * 36524 in
    let e = min 3 (d2 % 1461 / 365) in
    record {
      a = d / 146097;
      b = b;
      c = d2 / 1461;
      e = e;
      r = d2 % 1461 - 365 * e;
      b_le = omega arith;
      c_le = omega arith;
      e_le = omega arith;
      year = omega arith;
      sum = omega arith;
      rest = elim (dec_lt (d2 % 1461 - 365 * e) 365) [
        | yes h ↦ inl h
        | no h ↦ inr (omega arith, omega arith, λ hc. omega arith)
      ];
    }

-- The days of a year cover what is left over.
rest_fits : (d : ℕ) (g : Digits d) → g.r < 365 + leap_day (year_of d)
rest_fits d g = elim g.rest [
  | inl small ↦ omega arith
  | inr (r, e, h) ↦
      let leap : leap_day (year_of d) ≡ 1 =
        rw g.year (leap_day_cycles g.a g.b g.c g.e g.b_le g.c_le e h) in
      omega arith
]

-- The year of a day starts no later than the day, and the next year starts after it.
pub year_of_bounds : (d : ℕ) → (days_before (year_of d) ≤ d) × (d < days_before (suc (year_of d)))
year_of_bounds d =
    let g = digit_sum d in
    let jan : days_before (year_of d) + g.r ≡ d =
      rw g.year (omega (arith, days_before-cycles g.a g.b g.c g.e g.b_le g.c_le g.e_le, g.sum)) in
    (omega arith, omega (arith, days_before-suc (year_of d), rest_fits d g))

-- No other year does.
pub year_of_unique : (y d : ℕ) → days_before y ≤ d → d < days_before (suc y) → year_of d ≡ y
year_of_unique y d h k =
    let (lo, hi) = year_of_bounds d in
    elim (dec_lt (year_of d) y) [
      | yes lt ↦ absurd (omega (arith, days_before_mono (year_of d) y lt))
      | no ge ↦ elim (dec_lt y (year_of d)) [
        | yes lt ↦ absurd (omega (arith, days_before_mono y (year_of d) lt))
        | no le ↦ omega arith
      ]
    ]
