-- ===== src/Policy/Calendar.antt =====
-- `Period`, `Period.Start`, `Period.Next` and `Period.Valid` of internal/policy/policy.go, with the
-- civil calendar that they take from Go's `time`. A time is the number of nanoseconds since Go's
-- zero time, 1 January of year 1 in UTC; earlier times are not modelled.
pub mod Years
pub mod Windows
use Prim.Native.Nat.{min}
use keera_gateway.Base.{
  ℕ, zero, suc, ◌+◌, ◌-◌, ◌*◌, ◌/◌, ◌%◌, String, Bool, ◌&&◌, ◌||◌, not, ltb, ◌==◌, nat_eq,
  string_eq, if◌then◌else◌,
}

-- The window that a limit resets on, by its name.
abbrev pub Period : Type 0
Period = String

abbrev pub period_day : Period
period_day = "day"

abbrev pub period_month : Period
period_month = "month"

abbrev pub period_minute : Period
period_minute = "minute"

-- `Period.Valid`
unfoldable pub period_valid : Period → Bool
period_valid p = p == period_day || p == period_month

abbrev pub day_ns : ℕ
day_ns = 86_400_000_000_000

-- The days before the year that comes `y` years after year 1.
unfoldable pub days_before : ℕ → ℕ
days_before y = 365 * y + y / 4 - y / 100 + y / 400

-- The year, counted from year 1, of a day counted from its first: by cycles of 400, 100, 4 and 1
-- years, where the last cycle of 100 and the last year of 4 are a day longer.
unfoldable pub year_of : ℕ → ℕ
year_of d =
    let n400 = d / 146097 in
    let d1 = d % 146097 in
    let n100 = min 3 (d1 / 36524) in
    let d2 = d1 - n100 * 36524 in
    let n4 = d2 / 1461 in let d3 = d2 % 1461 in 400 * n400 + 100 * n100 + 4 * n4 + min 3 (d3 / 365)

-- 1 in a leap year, else 0.
unfoldable pub leap_day : ℕ → ℕ
leap_day y = if (y + 1) % 4 == 0 && (not ((y + 1) % 100 == 0) || (y + 1) % 400 == 0) then 1 else 0

-- The first day of the month that holds day `n` of a year, and of the month after it, both counted
-- from the year's first day; `l` is the year's leap day.
unfoldable pub month_first : ℕ → ℕ → ℕ × ℕ
month_first l n =
    if ltb n 31
    then (0, 31)
    else if ltb n (59 + l)
    then (31, 59 + l)
    else if ltb n (90 + l)
    then (59 + l, 90 + l)
    else if ltb n (120 + l)
    then (90 + l, 120 + l)
    else if ltb n (151 + l)
    then (120 + l, 151 + l)
    else if ltb n (181 + l)
    then (151 + l, 181 + l)
    else if ltb n (212 + l)
    then (181 + l, 212 + l)
    else if ltb n (243 + l)
    then (212 + l, 243 + l)
    else if ltb n (273 + l)
    then (243 + l, 273 + l)
    else if ltb n (304 + l)
    then (273 + l, 304 + l)
    else if ltb n (334 + l)
    then (304 + l, 334 + l)
    else (334 + l, 365 + l)

-- The first day of the month of day `d`, and of the month after it.
unfoldable pub month_days : ℕ → ℕ × ℕ
unfolding days_before year_of leap_day month_first
month_days d =
    let y = year_of d in
    let jan = days_before y in
    let (from, to) = month_first (leap_day y) (d - jan) in (jan + from, jan + to)

month_start : ℕ → ℕ
unfolding month_days
month_start t = (month_days (t / day_ns)).0 * day_ns

day_start : ℕ → ℕ
day_start t = t / day_ns * day_ns

-- `Period.Start`: every period but a month starts on its day.
unfoldable pub start : Period → ℕ → ℕ
unfolding month_start day_start
start p = if p == period_month then month_start else day_start

month_next : ℕ → ℕ
unfolding month_days
month_next t = (month_days (t / day_ns)).1 * day_ns

day_next : ℕ → ℕ
day_next t = (t / day_ns + 1) * day_ns

-- `Period.Next`
unfoldable pub next : Period → ℕ → ℕ
unfolding month_next day_next
next p = if p == period_month then month_next else day_next
