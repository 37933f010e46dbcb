-- ===== src/Shared/Money/Bps.antt =====
-- The fee that `ApplyBps` takes: the exact rate, rounded down, where the product fits in 64 bits.
use adquirente.Base.{ℕ, ◌*◌, ◌/◌, ◌≤◌, ◌<◌, ◌≡◌, arith}
use adquirente.Base.Int.{ℤ, pos, ◌*ℤ◌, quot}
use adquirente.Base.Int64.{half_range, Fits, int64-Fits, mul64, mul64_exact}
use adquirente.Shared.Money.{apply_bps}

product_le : (gross rate : ℕ) → rate ≤ 10000 → gross * rate ≤ gross * 10000
product_le gross rate r = grind arith

product_exact :
    (gross rate : ℕ) → gross * rate < half_range → mul64 (pos gross) (pos rate) ≡ pos (gross * rate)
unfolding ◌*ℤ◌
product_exact gross rate h = ground (arith, mul64_exact (pos gross) (pos rate))

-- A rate of at most 100 % on an amount below 2 ^ 63 / 10000 cents: the product does not overflow,
-- the fee is the exact one rounded down to a cent, and it is at most the amount.
pub apply_bps_floor :
    (gross rate : ℕ)
    → gross * 10000 < half_range
    → rate ≤ 10000
    → (apply_bps (pos gross) (pos rate) ≡ pos (gross * rate / 10000))
      × (gross * rate / 10000 ≤ gross)
unfolding apply_bps
apply_bps_floor gross rate h r = (
  rw (product_exact gross rate (omega (arith, product_le gross rate r))) (ground arith),
  omega (arith, product_le gross rate r),
)

quot-Fits : (z : ℤ) → Fits z → Fits (quot z 10000)
quot-Fits z h = ground arith

pub apply_bps-Fits : (gross rate : ℤ) → Fits (apply_bps gross rate)
unfolding apply_bps mul64
apply_bps-Fits gross rate = quot-Fits (mul64 gross rate) (int64-Fits (gross *ℤ rate))
