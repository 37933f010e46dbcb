-- ===== src/Shared/Calendar/Holidays.antt =====
-- The first days of July are never holidays, so business days recur within a bounded window.
use native.Mathlib.Decide.{dec_le, ℕ_discrete}
use adquirente.Base.{ℕ, ◌+◌, ◌-◌, ◌*◌, ◌%◌, ◌≤◌, ◌<◌, ◌≡◌, ◌≢◌, true, false, arith}
use adquirente.Shared.Time.{
  Time, day_nanos, days_before_year, month, year, weekday, march_year, march_day,
}
use adquirente.Shared.Time.Civil.{
  march_year-add, march_day-add, march_day-lt, march_year_start, days_before_year-suc,
}
use adquirente.Shared.Calendar.{is_national_holiday, is_business_day, window}
use adquirente.Shared.Calendar.Easter.{easter_sunday-eq, easter_offset_range}

-- The days of July, as day numbers from 1 March.
abbrev july : ℕ → ℕ → ℕ
july y k = days_before_year y + (122 + k)

july-month :
    (y k : ℕ) → k < 31 → (month (july y k * day_nanos) ≡ 7) × (year (july y k * day_nanos) ≡ y)
unfolding month year
july-month y k h = ground (arith, march_year-add y (122 + k), march_day-add y (122 + k))

july-working : (y k : ℕ) → k < 31 → is_national_holiday (july y k * day_nanos) ≡ false
unfolding is_national_holiday
july-working y k h = ground (arith, july-month y k, easter_sunday-eq y, easter_offset_range y)

is_business_day-intro :
    (t : Time)
    → weekday t ≢ 6
    → weekday t ≢ 0
    → is_national_holiday t ≡ false
    → is_business_day t ≡ true
unfolding is_business_day
is_business_day-intro t p q h = ground arith

weekday-july : (y k : ℕ) → weekday (july y k * day_nanos) ≡ (july y k + 3) % 7
unfolding weekday
weekday-july y k = omega arith

july-open :
    (y k : ℕ)
    → k < 31
    → (july y k + 3) % 7 ≢ 6
    → (july y k + 3) % 7 ≢ 0
    → is_business_day (july y k * day_nanos) ≡ true
july-open y k h p q =
    is_business_day-intro (july y k * day_nanos) (rw (weekday-july y k) p) (rw (weekday-july y k) q)
      (july-working y k h)

-- One of the first three days of July is a business day.
july-business : (y : ℕ) → (k : ℕ) × (k < 3) × (is_business_day (july y k * day_nanos) ≡ true)
july-business y = elim (ℕ_discrete ((july y 0 + 3) % 7) 6) [
  | yes saturday ↦ (2, omega arith, july-open y 2 (omega arith) (omega arith) (omega arith))
  | no working ↦ elim (ℕ_discrete ((july y 0 + 3) % 7) 0) [
    | yes sunday ↦ (1, omega arith, july-open y 1 (omega arith) (omega arith) (omega arith))
    | no monday ↦ (0, omega arith, july-open y 0 (omega arith) working monday)
  ]
]

-- A business day of that July, counted from a day that is not later and less than 397 days before.
july_within :
    (n y : ℕ)
    → n ≤ july y 0
    → july y 0 < n + 397
    → (j : ℕ) × (j < window) × (is_business_day ((n + j) * day_nanos) ≡ true)
july_within n y later near =
    let (k, small, business) = july-business y in
    let same : n + (july y k - n) ≡ july y k = omega arith in
    (july y k - n, omega arith, rw same business)

-- From every day on, a business day comes within the window.
pub business_day_recurs :
    (n : ℕ) → (j : ℕ) × (j < window) × (is_business_day ((n + j) * day_nanos) ≡ true)
business_day_recurs n = elim (dec_le (march_day n) 122) [
  | yes h ↦
      july_within n (march_year n) (omega (arith, march_year_start n))
        (omega (arith, march_year_start n))
  | no h ↦
      july_within n (march_year n + 1)
        (omega (arith, march_year_start n, march_day-lt n, days_before_year-suc (march_year n)))
        (omega (arith, march_year_start n, march_day-lt n, days_before_year-suc (march_year n)))
]
