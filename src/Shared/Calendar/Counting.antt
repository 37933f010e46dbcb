-- ===== src/Shared/Calendar/Counting.antt =====
-- `AddBusinessDays` of Brazil's calendar: the loop ends, and it passes exactly n business days.
use native.Mathlib.Nat.{add-zero, add-suc, suc-add}
use adquirente.Base.{
  ℕ, zero, suc, ◌+◌, ◌-◌, ◌*◌, ◌<◌, ◌≡◌, refl, inl, inr, true, false, arith, Bool-cases,
  if◌then◌else◌, ltb, ◌-◌,
}
use adquirente.Base.Int.{ℤ, pos_part}
use adquirente.Shared.Time.{Time, day_number}
use adquirente.Shared.Calendar.{is_business_day, add_from, add_business_days, window}
use adquirente.Shared.Calendar.Holidays.{business_day_recurs}
use adquirente.Shared.Calendar.Business.{midnight, add_days-midnight}

-- The business days among the m days after day n.
abbrev pub business_days : ℕ → ℕ → ℕ
business_days n zero = 0
business_days n (suc m) =
    (if is_business_day (midnight (suc n)) then 1 else 0) + business_days (suc n) m

-- Day n + m is the k-th business day after day n; for k = 0 it is day n itself.
pub record Nth (n k m : ℕ) : Type 0 where
  pub counted : business_days n m ≡ k
  pub last_open : 0 < k → is_business_day (midnight (n + m)) ≡ true
  pub none_asked : k ≡ 0 → m ≡ 0

Nth-zero : (n : ℕ) → Nth n 0 0
Nth-zero n = record {
  counted = refl;
  last_open = λ p. absurd (omega arith);
  none_asked = λ p. refl;
}

Nth-skip :
    (n k m : ℕ)
    → is_business_day (midnight (suc n)) ≡ false
    → Nth (suc n) (suc k) m
    → Nth n (suc k) (suc m)
Nth-skip n k m closed h = record {
  counted = rw closed (omega (arith, h.counted));
  last_open = λ p. rw (add-suc, ← suc-add) (h.last_open p);
  none_asked = λ e. absurd (omega arith);
}

Nth-take :
    (n k m : ℕ)
    → is_business_day (midnight (suc n)) ≡ true
    → Nth (suc n) k m
    → Nth n (suc k) (suc m)
Nth-take n zero m open_day h =
    let e : m ≡ 0 = h.none_asked refl in
    record {
      counted = rw open_day (omega (arith, h.counted));
      last_open = λ p. rw (e, add-suc, add-zero) open_day;
      none_asked = λ e. absurd (omega arith);
    }
Nth-take n (suc k) m open_day h = record {
  counted = rw open_day (omega (arith, h.counted));
  last_open = λ p. rw (add-suc, ← suc-add) (h.last_open (omega arith));
  none_asked = λ e. absurd (omega arith);
}

abbrev Found : ℕ → ℕ → ℕ → Type 0
Found fuel n k = (m : ℕ) × (add_from fuel (midnight n) k ≡ midnight (n + m)) × Nth n k m

add_from_done : (fuel n : ℕ) → Found fuel n 0
unfolding add_from
add_from_done zero n = (0, rw add-zero, Nth-zero n)
add_from_done (suc fuel) n = (0, rw add-zero, Nth-zero n)

ltb-zero_suc : (k : ℕ) → ltb 0 (suc k) ≡ true
ltb-zero_suc k = ground arith

sub-suc_one : (k : ℕ) → suc k - 1 ≡ k
sub-suc_one k = omega arith

-- One round of the loop, with k + 1 days to go, on either outcome of its test.
add_from_take :
    (fuel n k : ℕ)
    → is_business_day (midnight (suc n)) ≡ true
    → Found fuel (suc n) k
    → Found (suc fuel) n (suc k)
unfolding add_from
add_from_take fuel n k open_day (m, eq, nth) = (
  suc m,
  rw (add_days-midnight n, open_day, ltb-zero_suc k, sub-suc_one k, eq) (omega arith),
  Nth-take n k m open_day nth,
)

add_from_skip :
    (fuel n k : ℕ)
    → is_business_day (midnight (suc n)) ≡ false
    → Found fuel (suc n) (suc k)
    → Found (suc fuel) n (suc k)
unfolding add_from
add_from_skip fuel n k closed (m, eq, nth) = (
  suc m,
  rw (add_days-midnight n, closed, ltb-zero_suc k, eq) (omega arith),
  Nth-skip n k m closed nth,
)

-- Fuel for a window for each day after the next, and for the j days up to the next.
add_from-Found :
    (fuel n k j : ℕ)
    → window * k + j + 1 < fuel
    → is_business_day (midnight (suc n + j)) ≡ true
    → Found fuel n (suc k)
add_from-Found zero n k j lt h = absurd (omega arith)
add_from-Found (suc fuel) n k j lt h = elim (Bool-cases (is_business_day (midnight (suc n)))) [
  | inl open_day ↦ add_from_take fuel n k open_day (after k lt (add_from-Found fuel (suc n)))
  | inr closed ↦
      add_from_skip fuel n k closed (further j lt h closed (add_from-Found fuel (suc n) k))
]
  where
    after :
        (k : ℕ)
        → window * k + j + 1 < suc fuel
        → ((k j : ℕ)
            → window * k + j + 1 < fuel
            → is_business_day (midnight (suc (suc n) + j)) ≡ true
            → Found fuel (suc n) (suc k))
        → Found fuel (suc n) k
    after zero lt rec = add_from_done fuel (suc n)
    after (suc k) lt rec =
        let (i, near, open_day) = business_day_recurs (suc (suc n)) in
        rec k i (omega arith) open_day

    further :
        (j : ℕ)
        → window * k + j + 1 < suc fuel
        → is_business_day (midnight (suc n + j)) ≡ true
        → is_business_day (midnight (suc n)) ≡ false
        → ((j : ℕ)
            → window * k + j + 1 < fuel
            → is_business_day (midnight (suc (suc n) + j)) ≡ true
            → Found fuel (suc n) (suc k))
        → Found fuel (suc n) (suc k)
    further zero lt h closed rec = absurd (ground (arith, add-zero (suc n)))
    further (suc j) lt h closed rec = rec j (omega arith) (rw (add-suc, ← suc-add) at h)

add_business_days-Nth_ℕ : (n k : ℕ) → Found (window * k + 1) n k
add_business_days-Nth_ℕ n zero = add_from_done (window * 0 + 1) n
add_business_days-Nth_ℕ n (suc k) =
    let (j, near, open_day) = business_day_recurs (suc n) in
    add_from-Found (window * suc k + 1) n k j (omega arith) open_day

-- The loop of `AddBusinessDays` ends with its fuel to spare, at the n-th business day after the
-- instant's date: n business days are passed and the last of them is the result. For a count
-- below 1 the result is the date itself.
pub add_business_days-Nth :
    (t : Time) (n : ℤ)
    → (m : ℕ) × (add_business_days t n ≡ midnight (day_number t + m))
      × Nth (day_number t) (pos_part n) m
unfolding add_business_days
add_business_days-Nth t n = add_business_days-Nth_ℕ (day_number t) (pos_part n)
