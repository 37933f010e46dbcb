-- ===== src/Shared/Calendar/Easter.antt =====
-- The algorithm for Easter, for every year: a Sunday from 22 March to 25 April.
use adquirente.Base.{ℕ, ◌+◌, ◌-◌, ◌*◌, ◌/◌, ◌%◌, ◌≤◌, ◌<◌, ◌≡◌, ap, ◌∙◌, arith}
use native.Mathlib.Nat.{add_assoc}
use adquirente.Shared.Time.{day_nanos, days_before_year, weekday, date}
use adquirente.Shared.Calendar.{easter_sunday}

-- The algorithm from `l` on, for any value of `h` below 30.
abbrev offset : ℕ → ℕ → ℕ → ℕ
offset a h l = h + l + 21 - 7 * ((a + 11 * h + 22 * l) / 451)

abbrev rest_of : ℕ → ℕ → ℕ
rest_of y h = (32 + 2 * (y / 100 % 4) + 2 * (y % 100 / 4) - h - y % 100 % 4) % 7

abbrev epact : ℕ → ℕ
epact y = let b = y / 100 in (19 * (y % 19) + b - b / 4 - (b - (b + 8) / 25 + 1) / 3 + 15) % 30

offset_split : (s : ℕ) → 93 ≤ s → s < 155 → (153 * (s / 31 - 3) + 2) / 5 + (s % 31 + 1 - 1) ≡ s - 93
offset_split s p q = omega arith

offset_sum :
    (a h l : ℕ)
    → a < 19
    → h < 30
    → l < 7
    → let s = h + l - 7 * ((a + 11 * h + 22 * l) / 451) + 114 in
      (114 ≤ s) × (s < 155) × (s - 93 ≡ offset a h l)
offset_sum a h l p q r = (omega arith, omega arith, omega arith)

date-offset :
    (y a h l : ℕ)
    → a < 19
    → h < 30
    → l < 7
    → let s = h + l - 7 * ((a + 11 * h + 22 * l) / 451) + 114 in
      date y (s / 31) (s % 31 + 1) ≡ (days_before_year y + offset a h l) * day_nanos
unfolding date
date-offset y a h l p q r =
    let s = h + l - 7 * ((a + 11 * h + 22 * l) / 451) + 114 in
    let o = offset_sum a h l p q r in
    rw (add_assoc (days_before_year y) ((153 * (s / 31 - 3) + 2) / 5) (s % 31 + 1 - 1)) (
      ap (λ k. (days_before_year y + k) * day_nanos)
        (offset_split s (omega (arith, o.0)) o.1 ∙ o.2))

offset_range : (a h l : ℕ) → a < 19 → h < 30 → l < 7 → (21 ≤ offset a h l) × (offset a h l ≤ 55)
offset_range a h l p q r = (omega arith, omega arith)

-- Up to multiples of seven, the days before the year, `h` and `l` cancel.
year_mod : (y h : ℕ) → h < 30 → (days_before_year y + h + rest_of y h + 24) % 7 ≡ 0
unfolding days_before_year
year_mod y h q = omega arith

drop_sevens :
    (d h l m : ℕ) → m ≤ 3 → (d + h + l + 24) % 7 ≡ 0 → (d + (h + l + 21 - 7 * m) + 3) % 7 ≡ 0
drop_sevens d h l m p e = omega arith

offset-sunday :
    (y a h : ℕ) → a < 19 → h < 30 → (days_before_year y + offset a h (rest_of y h) + 3) % 7 ≡ 0
offset-sunday y a h p q =
    drop_sevens (days_before_year y) h (rest_of y h) ((a + 11 * h + 22 * rest_of y h) / 451)
      (omega arith) (year_mod y h q)

pub easter_offset : ℕ → ℕ
easter_offset y = offset (y % 19) (epact y) (rest_of y (epact y))

pub easter_sunday-eq :
    (y : ℕ) → easter_sunday y ≡ (days_before_year y + easter_offset y) * day_nanos
unfolding easter_sunday easter_offset
easter_sunday-eq y =
    date-offset y (y % 19) (epact y) (rest_of y (epact y)) (omega arith) (omega arith) (omega arith)

pub easter_offset_range : (y : ℕ) → (21 ≤ easter_offset y) × (easter_offset y ≤ 55)
unfolding easter_offset
easter_offset_range y =
    offset_range (y % 19) (epact y) (rest_of y (epact y)) (omega arith) (omega arith) (omega arith)

easter_offset-sunday : (y : ℕ) → (days_before_year y + easter_offset y + 3) % 7 ≡ 0
unfolding easter_offset
easter_offset-sunday y = offset-sunday y (y % 19) (epact y) (omega arith) (omega arith)

-- For every year the algorithm gives a Sunday, and one from 22 March (the day with number 21 after
-- 1 March) to 25 April (the day with number 55).
pub easter_sunday_lem :
    (y : ℕ)
    → (weekday (easter_sunday y) ≡ 0)
      × (date y 3 22 ≤ easter_sunday y)
      × (easter_sunday y ≤ date y 4 25)
unfolding weekday date days_before_year
easter_sunday_lem y =
    let range = easter_offset_range y in
    let sunday = easter_offset-sunday y in
    rw (easter_sunday-eq y) (omega arith, omega arith, omega arith)
