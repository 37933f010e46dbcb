-- ===== src/Shared/Calendar/Laws.antt =====
-- What a client may rely on of a business calendar, and Brazil's calendar as an instance of it.
use adquirente.Base.{ℕ, zero, suc, ◌+◌, ◌-◌, ◌≤◌, ◌<◌, ◌≡◌, true, false, arith}
use adquirente.Base.Int.{ℤ, pos_part}
use adquirente.Shared.Time.{Time, day_number, date_only, add_days}
use adquirente.Shared.Calendar.{BusinessCalendar, brazil_calendar}
use adquirente.Shared.Calendar.Business.{midnight, next_business_day-First}
use adquirente.Shared.Calendar.Counting.{business_days, add_business_days-Nth}

-- The results are midnights of business days. `NextBusinessDay` gives the first one from the date
-- on, and `AddBusinessDays` one that is at least n days after the date.
pub record IsLawful (c : BusinessCalendar) : Type 0 where
  pub next_open : (t : Time) → c.is_business_day (c.next_business_day t) ≡ true
  pub next_midnight : (t : Time) → date_only (c.next_business_day t) ≡ c.next_business_day t
  pub next_later : (t : Time) → date_only t ≤ c.next_business_day t
  pub next_least :
      (t : Time) (n : ℕ)
      → date_only t ≤ midnight n
      → midnight n < c.next_business_day t
      → c.is_business_day (midnight n) ≡ false
  pub add_open :
      (t : Time) (n : ℤ) → 0 < pos_part n → c.is_business_day (c.add_business_days t n) ≡ true
  pub add_midnight :
      (t : Time) (n : ℤ) → date_only (c.add_business_days t n) ≡ c.add_business_days t n
  pub add_later : (t : Time) (n : ℤ) → add_days (date_only t) (pos_part n) ≤ c.add_business_days t n

business_days-le : (n m : ℕ) → business_days n m ≤ m
business_days-le n zero = omega arith
business_days-le n (suc m) = ground (arith, business_days-le (suc n) m)

-- Brazil's calendar keeps these promises: its searches end, the next business day is the first
-- from the date on, and the n-th business day is a business day at least n days after the date.
pub brazil_calendar-IsLawful : IsLawful brazil_calendar
unfolding brazil_calendar
brazil_calendar-IsLawful = record {
  next_open = λ t. let (m, eq, first) = next_business_day-First t in rw eq (first.0);
  next_midnight = λ t. let (m, eq, first) = next_business_day-First t in rw eq (omega arith);
  next_later = λ t. let (m, eq, first) = next_business_day-First t in rw eq (omega arith);
  next_least = λ t n from to.
      let (m, eq, first) = next_business_day-First t in
      let same : day_number t + (n - day_number t) ≡ n = omega arith in
      rw same at (first.1 (n - day_number t) (omega arith));
  add_open = λ t n h. let (m, eq, nth) = add_business_days-Nth t n in rw eq (nth.last_open h);
  add_midnight = λ t n. let (m, eq, nth) = add_business_days-Nth t n in rw eq (omega arith);
  add_later = λ t n.
      let (m, eq, nth) = add_business_days-Nth t n in
      omega (arith, eq, nth.counted, business_days-le (day_number t) m);
}
