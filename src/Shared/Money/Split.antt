-- ===== src/Shared/Money/Split.antt =====
-- `Split` loses no cent: the parts are n, they add up to the total, and all but the first are the
-- truncated share.
use adquirente.Base.{
  ℕ, zero, suc, ◌+◌, ◌-◌, ◌*◌, ◌/◌, ◌≤◌, ◌<◌, ◌≡◌, ◌∙◌, ap, true, ◌∷◌, length, replicate,
  length-replicate, arith,
}
use native.Mathlib.Nat.{div-add-mod', zero-add}
use adquirente.Base.Int.{ℤ, pos, negsuc, sub_ℕ, ltb_ℤ, ◌+ℤ◌, ◌-ℤ◌, ◌*ℤ◌, quot}
use adquirente.Base.Int64.{
  Fits, half_range, add64, sub64, mul64, add64_pos, sub64_pos, add64_exact, sub64_exact,
  mul64_exact,
}
use adquirente.Shared.Money.{sum_from, sum, split}

-- -n
abbrev neg : ℕ → ℤ
neg n = sub_ℕ 0 n

add64-neg : (a b : ℕ) → a + b ≤ half_range → add64 (neg a) (neg b) ≡ neg (a + b)
unfolding ◌+ℤ◌
add64-neg a b h = ground (arith, add64_exact (neg a) (neg b))

sub64-neg : (a b : ℕ) → b ≤ a → a ≤ half_range → sub64 (neg a) (neg b) ≡ neg (a - b)
unfolding ◌-ℤ◌
sub64-neg a b l h = ground (arith, sub64_exact (neg a) (neg b))

mul64_pos : (a b : ℕ) → a * b < half_range → mul64 (pos a) (pos b) ≡ pos (a * b)
unfolding ◌*ℤ◌
mul64_pos a b h = ground (arith, mul64_exact (pos a) (pos b))

mul64-neg : (a b : ℕ) → a * b ≤ half_range → mul64 (neg a) (pos b) ≡ neg (a * b)
unfolding ◌*ℤ◌
mul64-neg a b h = ground (arith, mul64_exact (neg a) (pos b))

sum_from_pos :
    (k a b : ℕ) → a + k * b < half_range → sum_from (pos a) (replicate k (pos b)) ≡ pos (a + k * b)
unfolding sum_from
sum_from_pos zero a b h = ground arith
sum_from_pos (suc k) a b h =
    rw (add64_pos a b (grind arith), sum_from)
      (sum_from_pos k (a + b) b (grind arith) ∙ ap pos (grind arith))

sum_from-neg :
    (k a b : ℕ) → a + k * b ≤ half_range → sum_from (neg a) (replicate k (neg b)) ≡ neg (a + k * b)
unfolding sum_from
sum_from-neg zero a b h = ap neg (omega arith)
sum_from-neg (suc k) a b h =
    rw (add64-neg a b (grind arith), sum_from)
      (sum_from-neg k (a + b) b (grind arith) ∙ ap neg (grind arith))

quot-pos : (t k : ℕ) → quot (pos t) (suc k) ≡ pos (t / suc k)
quot-pos t k = ground arith

quot-neg : (t k : ℕ) → quot (neg t) (suc k) ≡ neg (t / suc k)
quot-neg t k = ground arith

positive : (k : ℕ) → ltb_ℤ (pos 0) (pos (suc k)) ≡ true
positive k = ground arith

-- The share in k + 1 parts, and the first part, which takes the remainder too.
abbrev share : ℕ → ℕ → ℕ
share t k = t / suc k

abbrev first_part : ℕ → ℕ → ℕ
first_part t k = share t k + (t - share t k * suc k)

share-le : (t k : ℕ) → share t k * suc k ≤ t
share-le t k = omega (arith, div-add-mod' t (suc k))

first_part-total : (t k : ℕ) → first_part t k + k * share t k ≡ t
first_part-total t k = grind (arith, share-le t k)

split_pos :
    (t k : ℕ)
    → t < half_range
    → split (pos t) (pos (suc k)) ≡ pos (first_part t k) ∷ replicate k (pos (share t k))
unfolding split
split_pos t k h = rw (
  quot-pos t k,
  mul64_pos (share t k) (suc k) (omega (arith, share-le t k)),
  sub64_pos t (share t k * suc k) (share-le t k) h,
  add64_pos (share t k) (t - share t k * suc k) (omega (arith, first_part-total t k)),
  positive k,
)

split-neg :
    (t k : ℕ)
    → t ≤ half_range
    → split (neg t) (pos (suc k)) ≡ neg (first_part t k) ∷ replicate k (neg (share t k))
unfolding split
split-neg t k h = rw (
  quot-neg t k,
  mul64-neg (share t k) (suc k) (omega (arith, share-le t k)),
  sub64-neg t (share t k * suc k) (share-le t k) h,
  add64-neg (share t k) (t - share t k * suc k) (omega (arith, first_part-total t k)),
  positive k,
)

sum_pos : (f k q : ℕ) → f + k * q < half_range → sum (pos f ∷ replicate k (pos q)) ≡ pos (f + k * q)
unfolding sum sum_from
sum_pos f k q h = rw (add64_pos 0 f (omega arith), zero-add, sum, sum_from) (sum_from_pos k f q h)

sum-neg : (f k q : ℕ) → f + k * q ≤ half_range → sum (neg f ∷ replicate k (neg q)) ≡ neg (f + k * q)
unfolding sum sum_from
sum-neg f k q h = rw (add64-neg 0 f (omega arith), zero-add, sum, sum_from) (sum_from-neg k f q h)

neg-suc : (t : ℕ) → neg (suc t) ≡ negsuc t
neg-suc t = ground arith

-- Splitting a total that fits in n > 0 parts gives n parts, whose sum, as `Sum` computes it, is the
-- total again; the total may be negative.
pub split_total :
    (total : ℤ) (n : ℕ)
    → Fits total
    → 0 < n
    → (sum (split total (pos n)) ≡ total) × (length (split total (pos n)) ≡ n)
split_total t zero h p = absurd (omega arith)
split_total (pos t) (suc k) h p = rw (split_pos t k (omega arith)) (
  rw (
    sum_pos (first_part t k) k (share t k) (omega (arith, first_part-total t k)),
    first_part-total t k,
  ),
  rw (length-replicate k (pos (share t k))),
)
split_total (negsuc t) (suc k) h p =
    rw (← neg-suc t, split-neg (suc t) k (omega arith))
      (
        rw (
          sum-neg (first_part (suc t) k) k (share (suc t) k)
              (omega (arith, first_part-total (suc t) k)),
          first_part-total (suc t) k,
        ),
        rw (length-replicate k (neg (share (suc t) k))),
      )
