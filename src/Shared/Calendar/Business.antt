-- ===== src/Shared/Calendar/Business.antt =====
-- `NextBusinessDay` and `AddBusinessDays` of Brazil's calendar: both loops end, and what they find.
use adquirente.Base.{ℕ, zero, suc, ◌+◌, ◌*◌, ◌<◌, ◌≡◌, inl, inr, true, false, arith, Bool-cases}
use native.Mathlib.Nat.{add-zero, add-suc, suc-add}
use adquirente.Shared.Time.{Time, day_nanos, day_number, add_days}
use adquirente.Shared.Calendar.{is_business_day, next_from, next_business_day, window}
use adquirente.Shared.Calendar.Holidays.{business_day_recurs}

-- Midnight of a day number, and the days that follow.
abbrev pub midnight : ℕ → Time
midnight n = n * day_nanos

pub add_days-midnight : (n : ℕ) → add_days (midnight n) 1 ≡ midnight (suc n)
add_days-midnight n = omega arith

-- What `NextBusinessDay` promises of day n + m: the first business day from day n on.
abbrev pub First : ℕ → ℕ → Type 0
First n m =
    (is_business_day (midnight (n + m)) ≡ true)
    × ((i : ℕ) → i < m → is_business_day (midnight (n + i)) ≡ false)

First-zero : (n : ℕ) → is_business_day (midnight n) ≡ true → First n 0
First-zero n h = (rw add-zero h, λ i p. absurd (omega arith))

First-suc : (n m : ℕ) → is_business_day (midnight n) ≡ false → First (suc n) m → First n (suc m)
First-suc n m skipped (here, before) = (rw (add-suc, ← suc-add) here, go)
  where
    go : (i : ℕ) → i < suc m → is_business_day (midnight (n + i)) ≡ false
    go zero p = rw add-zero skipped
    go (suc i) p = rw (add-suc, ← suc-add) (before i (omega arith))

-- The loop is run from day n, with fuel for j + 1 days, and day n + j is a business day.
next_from-First :
    (fuel n j : ℕ)
    → j < fuel
    → is_business_day (midnight (n + j)) ≡ true
    → (m : ℕ) × (next_from fuel (midnight n) ≡ midnight (n + m)) × First n m
unfolding next_from
next_from-First zero n j lt h = absurd (omega arith)
next_from-First (suc fuel) n j lt h = elim (Bool-cases (is_business_day (midnight n))) [
  | inl found ↦ (0, rw (found, add-zero), First-zero n found)
  | inr skipped ↦ go j lt h skipped (next_from-First fuel (suc n))
]
  where
    go :
        (j : ℕ)
        → j < suc fuel
        → is_business_day (midnight (n + j)) ≡ true
        → is_business_day (midnight n) ≡ false
        → ((j : ℕ)
            → j < fuel
            → is_business_day (midnight (suc n + j)) ≡ true
            → (m : ℕ) × (next_from fuel (midnight (suc n)) ≡ midnight (suc n + m))
              × First (suc n) m)
        → (m : ℕ) × (next_from (suc fuel) (midnight n) ≡ midnight (n + m)) × First n m
    go zero lt h skipped rec = absurd (ground (arith, add-zero n))
    go (suc j) lt h skipped rec =
        let (m, eq, first) = rec j (omega arith) (rw (add-suc, ← suc-add) at h) in
        (suc m, rw (skipped, add_days-midnight n, eq) (omega arith), First-suc n m skipped first)

-- From any instant, the loop of `NextBusinessDay` ends within its window at the first business day
-- on or after that instant's date: that day is one, and no day from the date up to it is.
pub next_business_day-First :
    (t : Time)
    → (m : ℕ) × (next_business_day t ≡ midnight (day_number t + m)) × First (day_number t) m
unfolding next_business_day
next_business_day-First t =
    let (j, lt, h) = business_day_recurs (day_number t) in
    next_from-First window (day_number t) j lt h
