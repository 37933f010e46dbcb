-- ===== src/Shared/Time.antt =====
-- What the code uses of Go's `time` package, in UTC: an instant is a number of nanoseconds since
-- 1 March of year 0 of the proleptic Gregorian calendar. Go's zero time is 1 January of year 1,
-- so every later instant is a natural number; earlier ones are not modelled. A year that starts
-- on 1 March ends with its leap day, which keeps the calendar's arithmetic linear.
pub mod Civil
use adquirente.Base.{ℕ, suc, ◌+◌, ◌-◌, ◌*◌, ◌/◌, ◌%◌, Bool, true, false, ltb, ◌==◌, if◌then◌else◌}
use adquirente.Base.Int.{ℤ, pos, negsuc, ◌-ℤ◌, ltb_ℤ, quot}
use adquirente.Base.Int64.{half_range}
use Prim.Native.Nat.{min}

abbrev pub Time : Type 0
Time = ℕ

-- 24 hours in nanoseconds.
abbrev pub day_nanos : ℕ
day_nanos = 86400000000000

abbrev pub day_number : Time → ℕ
day_number t = t / day_nanos

-- `DateOnly`: midnight of the same day.
abbrev pub date_only : Time → Time
date_only t = day_number t * day_nanos

abbrev pub after : Time → Time → Bool
after t u = ltb u t

abbrev pub before : Time → Time → Bool
before t u = ltb t u

-- `t.AddDate(0, 0, n)` for n days forwards.
abbrev pub add_days : Time → ℕ → Time
add_days t n = t + n * day_nanos

-- `t.AddDate(0, 0, -n)`
abbrev pub sub_days : Time → ℕ → Time
sub_days t n = t - n * day_nanos

-- `t.Sub(u)`: a `Duration`, which saturates at the ends of its 64-bit range.
unfoldable pub duration : Time → Time → ℤ
unfolding ◌-ℤ◌
duration t u =
    let d = pos t -ℤ pos u in
    if ltb_ℤ (pos (half_range - 1)) d
    then pos (half_range - 1)
    else if ltb_ℤ d (negsuc (half_range - 1))
    then negsuc (half_range - 1)
    else d

-- `int(d.Hours() / 24)`: whole days, towards zero. On a multiple of 24 hours `Hours()` and the
-- quotient are exact floats.
abbrev pub whole_days : ℤ → ℤ
whole_days d = quot d day_nanos

-- 0 is Sunday: 1 March of year 0 is a Wednesday.
unfoldable pub weekday : Time → ℕ
weekday t = (day_number t + 3) % 7

-- The days before 1 March of year y.
unfoldable pub days_before_year : ℕ → ℕ
days_before_year y = 365 * y + y / 4 - y / 100 + y / 400

-- The days of a 400-year era are divided into centuries, cycles of four years, and years, as in
-- the package's `absDate`. The last part of a cycle takes the leap day.
abbrev pub century : ℕ → ℕ
century doe = min 3 (doe / 36524)

abbrev pub day_of_century : ℕ → ℕ
day_of_century doe = doe - century doe * 36524

abbrev pub year_of_cycle : ℕ → ℕ
year_of_cycle doc = min 3 (doc % 1461 / 365)

-- The year that starts on the last 1 March.
unfoldable pub march_year : ℕ → ℕ
march_year n =
    let doe = n % 146097 in
    let doc = day_of_century doe in
    400 * (n / 146097) + 100 * century doe + 4 * (doc / 1461) + year_of_cycle doc

-- The day in that year, from 0.
unfoldable pub march_day : ℕ → ℕ
march_day n = let doc = day_of_century (n % 146097) in doc % 1461 - 365 * year_of_cycle doc

-- The month, from 0 for March, of a day of that year.
abbrev pub march_month : ℕ → ℕ
march_month doy = (5 * doy + 2) / 153

unfoldable pub month : Time → ℕ
unfolding march_day
month t = let m = march_month (march_day (day_number t)) in if ltb m 10 then m + 3 else m - 9

unfoldable pub year : Time → ℕ
unfolding march_year march_day
year t =
    let n = day_number t in
    if ltb (march_month (march_day n)) 10 then march_year n else march_year n + 1

unfoldable pub day : Time → ℕ
unfolding march_day
day t = let doy = march_day (day_number t) in doy - (153 * march_month doy + 2) / 5 + 1

-- `time.Date(y, m, d, 0, 0, 0, 0, time.UTC)` for a month from 3 to 12; a day past the end of the
-- month runs into the next one, as it does in Go.
unfoldable pub date : ℕ → ℕ → ℕ → Time
unfolding days_before_year
date y m d = (days_before_year y + (153 * (m - 3) + 2) / 5 + (d - 1)) * day_nanos
