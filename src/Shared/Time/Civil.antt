-- ===== src/Shared/Time/Civil.antt =====
-- The civil calendar: every day number lies in the year that `march_year` gives, and the first
-- days of July are found by their numbers.
use adquirente.Base.{ℕ, ◌+◌, ◌≤◌, ◌<◌, ◌≡◌, arith}
use adquirente.Shared.Time.{days_before_year, march_year, march_day}

pub march_year_start : (n : ℕ) → days_before_year (march_year n) + march_day n ≡ n
unfolding days_before_year march_year march_day
march_year_start n = omega arith

pub march_day-lt : (n : ℕ) → march_day n < 366
unfolding march_day
march_day-lt n = omega arith

pub days_before_year-suc :
    (y : ℕ)
    → (days_before_year y + 365 ≤ days_before_year (y + 1))
      × (days_before_year (y + 1) ≤ days_before_year y + 366)
unfolding days_before_year
days_before_year-suc y = (omega arith, omega arith)

-- A day before the end of the common year lies in the year of its start.
pub march_year-add : (y k : ℕ) → k < 365 → march_year (days_before_year y + k) ≡ y
unfolding days_before_year march_year
march_year-add y k h = omega arith

pub march_day-add : (y k : ℕ) → k < 365 → march_day (days_before_year y + k) ≡ k
unfolding days_before_year march_day
march_day-add y k h = omega arith
