-- ===== src/Shared/Calendar.antt =====
-- internal/domain/shared/calendar.go: the interface of the business calendar, and Brazil's.
pub mod Easter
pub mod Holidays
pub mod Business
pub mod Counting
pub mod Laws
use adquirente.Base.{
  ℕ, zero, suc, ◌+◌, ◌-◌, ◌*◌, ◌/◌, ◌%◌, Bool, true, false, not, ◌&&◌, ◌||◌, ◌==◌, ltb,
  if◌then◌else◌, ◌≡◌, ◌≤◌,
}
use adquirente.Base.Int.{ℤ, pos_part}
use adquirente.Shared.Time.{
  Time, day_nanos, date_only, add_days, sub_days, weekday, month, year, day, date,
}

-- The interface `BusinessCalendar`.
pub record BusinessCalendar : Type 0 where
  pub is_business_day : Time → Bool
  pub next_business_day : Time → Time
  pub add_business_days : Time → ℤ → Time

-- Easter Sunday by the algorithm of Meeus, Jones and Butcher; no difference is negative.
unfoldable pub easter_sunday : ℕ → Time
easter_sunday y =
    let a = y % 19 in
    let b = y / 100 in
    let c = y % 100 in
    let d = b / 4 in
    let e = b % 4 in
    let f = (b + 8) / 25 in
    let g = (b - f + 1) / 3 in
    let h = (19 * a + b - d - g + 15) % 30 in
    let i = c / 4 in
    let k = c % 4 in
    let l = (32 + 2 * e + 2 * i - h - k) % 7 in
    let m = (a + 11 * h + 22 * l) / 451 in
    let s = h + l - 7 * m + 114 in date y (s / 31) (s % 31 + 1)

abbrev is_fixed_holiday : ℕ → ℕ → Bool
is_fixed_holiday m d =
    (m == 1 && d == 1)
    || (m == 4 && d == 21)
    || (m == 5 && d == 1)
    || (m == 9 && d == 7)
    || (m == 10 && d == 12)
    || (m == 11 && d == 2)
    || (m == 11 && d == 15)
    || (m == 11 && d == 20)
    || (m == 12 && d == 25)

-- Carnival Monday and Tuesday, Good Friday and Corpus Christi.
abbrev is_moving_holiday : Time → Time → Bool
is_moving_holiday easter today =
    today == sub_days easter 48
    || today == sub_days easter 47
    || today == sub_days easter 2
    || today == add_days easter 60

unfoldable pub is_national_holiday : Time → Bool
is_national_holiday t =
    is_fixed_holiday (month t) (day t) || is_moving_holiday (easter_sunday (year t)) (date_only t)

unfoldable pub is_business_day : Time → Bool
is_business_day t = if weekday t == 6 || weekday t == 0 then false else not (is_national_holiday t)

-- The loop of `NextBusinessDay`, with fuel.
unfoldable pub next_from : ℕ → Time → Time
next_from zero d = d
next_from (suc fuel) d =
    let later = next_from fuel (add_days d 1) in if is_business_day d then d else later

-- Every window of this many days has a business day.
abbrev pub window : ℕ
window = 400

unfoldable pub next_business_day : Time → Time
next_business_day t = next_from window (date_only t)

-- The loop of `AddBusinessDays`, with fuel and with n days to go.
unfoldable pub add_from : ℕ → Time → ℕ → Time
add_from zero d n = d
add_from (suc fuel) d n =
    let d' = add_days d 1 in
    let later = add_from fuel d' (if is_business_day d' then n - 1 else n) in
    if ltb 0 n then later else d

-- For a count below 1 the loop does not run.
unfoldable pub add_business_days : Time → ℤ → Time
add_business_days t n = add_from (window * pos_part n + 1) (date_only t) (pos_part n)

unfoldable pub brazil_calendar : BusinessCalendar
brazil_calendar = record {
  is_business_day = is_business_day;
  next_business_day = next_business_day;
  add_business_days = add_business_days;
}
