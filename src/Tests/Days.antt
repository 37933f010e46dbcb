-- ===== src/Tests/Days.antt =====
-- Examples for the calendar.
use adquirente.Base.{ℕ, ◌+◌, ◌≤◌, ◌≡◌}
use adquirente.Base.Int.{pos}
use adquirente.Shared.Time.{day_number, weekday, date}
use adquirente.Shared.Calendar.{easter_sunday, next_business_day, add_business_days}
use adquirente.Shared.Calendar.Easter.{easter_sunday_lem}
use adquirente.Shared.Calendar.Business.{midnight, First, next_business_day-First}
use adquirente.Shared.Calendar.Counting.{Nth, add_business_days-Nth}
use adquirente.Tests.Data.{monday}

easter_sunday_lem_example :
    (weekday (easter_sunday 2024) ≡ 0)
    × (date 2024 3 22 ≤ easter_sunday 2024)
    × (easter_sunday 2024 ≤ date 2024 4 25)
easter_sunday_lem_example = easter_sunday_lem 2024

next_business_day-First_example :
    (m : ℕ) × (next_business_day monday ≡ midnight (day_number monday + m))
    × First (day_number monday) m
next_business_day-First_example = next_business_day-First monday

add_business_days-Nth_example :
    (m : ℕ) × (add_business_days monday (pos 2) ≡ midnight (day_number monday + m))
    × Nth (day_number monday) 2 m
add_business_days-Nth_example = add_business_days-Nth monday (pos 2)
