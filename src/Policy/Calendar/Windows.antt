-- ===== src/Policy/Calendar/Windows.antt =====
-- The windows of a period: every time lies in one, they do not overlap, and one follows another.
use native.Mathlib.Decide.{dec_lt}
use keera_gateway.Base.{
  ℕ, suc, ◌+◌, ◌-◌, ◌*◌, ◌/◌, ◌≤◌, ◌<◌, ◌≡◌, refl, arith, ap, sym, ◌∙◌, ◌↔◌, inl, inr, Bool-cases,
  ◌==◌, string_eq,
}
use keera_gateway.Policy.Calendar.{
  Period, period_month, month_start, month_next, day_start, day_next, day_ns, days_before, year_of,
  leap_day, month_first, month_days, start, next,
}
use keera_gateway.Policy.Calendar.Years.{days_before-suc, year_of_bounds, year_of_unique}

leap_day-le : (y : ℕ) → leap_day y ≤ 1
unfolding leap_day
leap_day-le y = ground arith

-- The month around a day of the year.
month_first_bounds :
    (l n : ℕ)
    → n < 365 + l
    → ((month_first l n).0 ≤ n) × (n < (month_first l n).1) × ((month_first l n).1 ≤ 365 + l)
unfolding month_first
month_first_bounds l n h = ground arith

-- Every day of that month has the same one.
month_first_same :
    (l n k : ℕ)
    → (month_first l n).0 ≤ k
    → k < (month_first l n).1
    → month_first l k ≡ month_first l n
unfolding month_first
month_first_same l n k h1 h2 = ground arith

month_first_next :
    (l n : ℕ)
    → l ≤ 1
    → (month_first l n).1 < 365 + l
    → (month_first l (month_first l n).1).0 ≡ (month_first l n).1
unfolding month_first
month_first_next l n h k = ground arith

month_first_zero : (a l : ℕ) → a + (month_first l 0).0 ≡ a
unfolding month_first
month_first_zero a l = ground arith

-- The day of the year is one of its days.
day_fits : (d : ℕ) → d - days_before (year_of d) < 365 + leap_day (year_of d)
day_fits d = omega (arith, year_of_bounds d, days_before-suc (year_of d))

month_days_bounds : (d : ℕ) → ((month_days d).0 ≤ d) × (d < (month_days d).1)
unfolding month_days
month_days_bounds d =
    let y = year_of d in
    let b = month_first_bounds (leap_day y) (d - days_before y) (day_fits d) in
    (omega (arith, year_of_bounds d, b.0), omega (arith, year_of_bounds d, b.1))

-- A day of the month of `d` lies in the same year.
same_year : (d e : ℕ) → (month_days d).0 ≤ e → e < (month_days d).1 → year_of e ≡ year_of d
unfolding month_days
same_year d e h k =
    let y = year_of d in
    let b = month_first_bounds (leap_day y) (d - days_before y) (day_fits d) in
    year_of_unique y e (omega arith) (omega (arith, days_before-suc y, b.2))

month_days_same :
    (d e : ℕ) → (month_days d).0 ≤ e → e < (month_days d).1 → month_days e ≡ month_days d
month_days_same d e h k =
    let y = year_of d in
    let same = same_year d e h k in
    unfold month_days in
    rw same (
      rw
        (month_first_same (leap_day y) (d - days_before y) (e - days_before y) (omega arith)
          (omega arith))
        refl)

month_days_next : (d : ℕ) → (month_days (month_days d).1).0 ≡ (month_days d).1
unfolding month_days
month_days_next d =
    let y = year_of d in
    let l = leap_day y in
    let jan = days_before y in
    let n = d - jan in
    let to = (month_first l n).1 in
    let b = month_first_bounds l n (day_fits d) in
    elim (dec_lt to (365 + l)) [
      | yes inside ↦
          let same : year_of (jan + to) ≡ y =
            year_of_unique y (jan + to) (omega arith) (omega (arith, days_before-suc y)) in
          let place : jan + to - jan ≡ to = omega arith in
          rw (same, place, month_first_next l n (leap_day-le y) inside) refl
      | no outside ↦
          let last : jan + to ≡ days_before (suc y) = omega (arith, days_before-suc y, b.2) in
          let same : year_of (days_before (suc y)) ≡ suc y =
            year_of_unique (suc y) (days_before (suc y)) (omega arith)
              (omega (arith, days_before-suc (suc y))) in
          let place : days_before (suc y) - days_before (suc y) ≡ 0 = omega arith in
          rw (last, same, place) (month_first_zero (days_before (suc y)) (leap_day (suc y)))
    ]

-- What makes two functions the bounds of windows that divide time.
record AreWindows (from to : ℕ → ℕ) : Type 0 where
  bounds : (t : ℕ) → (from t ≤ t) × (t < to t)
  same : (t u : ℕ) → from t ≤ u → u < to t → (from u ≡ from t) × (to u ≡ to t)
  follows : (t : ℕ) → from (to t) ≡ to t

month_bounds : (t : ℕ) → (month_start t ≤ t) × (t < month_next t)
unfolding month_start month_next
month_bounds t = omega (arith, month_days_bounds (t / day_ns))

month_same :
    (t u : ℕ)
    → month_start t ≤ u
    → u < month_next t
    → (month_start u ≡ month_start t) × (month_next u ≡ month_next t)
unfolding month_start month_next
month_same t u h k =
    let same = month_days_same (t / day_ns) (u / day_ns) (omega arith) (omega arith) in
    (ap (λ (q : ℕ × ℕ). q.0 * day_ns) same, ap (λ (q : ℕ × ℕ). q.1 * day_ns) same)

month_follows : (t : ℕ) → month_start (month_next t) ≡ month_next t
unfolding month_start month_next
month_follows t =
    let d = t / day_ns in
    let whole : (month_days d).1 * day_ns / day_ns ≡ (month_days d).1 = omega arith in
    ap (λ (k : ℕ). (month_days k).0 * day_ns) whole ∙ ap (λ (k : ℕ). k * day_ns) (month_days_next d)

months-AreWindows : AreWindows month_start month_next
months-AreWindows = record { bounds = month_bounds; same = month_same; follows = month_follows }

days-AreWindows : AreWindows day_start day_next
unfolding day_start day_next
days-AreWindows = record {
  bounds = λ t. omega arith;
  same = λ t u h k. omega arith;
  follows = λ t. omega arith;
}

periods-AreWindows : (p : Period) → AreWindows (start p) (next p)
unfolding start next
periods-AreWindows p = elim (Bool-cases (p == period_month)) [
  | inl e ↦ rw e months-AreWindows
  | inr e ↦ rw e days-AreWindows
]

-- The end of a window is the end of its first instant's.
next-start : (p : Period) (t : ℕ) → next p (start p t) ≡ next p t
next-start p t =
    let w = periods-AreWindows p in
    let (lo, hi) = w.bounds t in (w.same t (start p t) (omega arith) (omega arith)).1

-- The windows of a period divide time: a time lies in its own window, two times have one window
-- exactly when the one lies in the other's, and a window begins where the one before it ends.
pub windows_divide_time :
    (p : Period) (t u : ℕ)
    → (start p t ≤ t)
      × (t < next p t)
      × ((start p u ≡ start p t) ↔ ((start p t ≤ u) × (u < next p t)))
      × (start p (next p t) ≡ next p t)
windows_divide_time p t u =
    let w = periods-AreWindows p in
    let (lo, hi) = w.bounds t in (lo, hi, (to, λ h. (w.same t u h.0 h.1).0), w.follows t)
  where
    to : start p u ≡ start p t → (start p t ≤ u) × (u < next p t)
    to e =
        let end : next p u ≡ next p t = sym (next-start p u) ∙ rw e (next-start p t) in
        let (lo, hi) = (periods-AreWindows p).bounds u in (omega arith, omega arith)
