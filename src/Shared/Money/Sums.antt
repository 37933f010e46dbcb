-- ===== src/Shared/Money/Sums.antt =====
-- Sums of money in any order: the loop of `Sum` against a plain recursion, modulo 2 ^ 64.
use native.Mathlib.Nat.{zero-add}
use adquirente.Base.{ℕ, ◌+◌, ◌%◌, ◌≡◌, List, [], ◌∷◌, ◌++◌, arith}
use adquirente.Base.Int.{pos}
use adquirente.Base.Int64.{Fits, bits, bits-lt, add64, add64-Fits, full_range, int64_laws}
use adquirente.Shared.Money.{Money, sum_from, sum}

-- The bit patterns of the values, added up exactly.
abbrev pub bits_total : List Money → ℕ
bits_total [] = 0
bits_total (v ∷ vs) = bits v + bits_total vs

pub sum_from-bits :
    (acc : Money) (vs : List Money)
    → bits (sum_from acc vs) ≡ (bits acc + bits_total vs) % full_range
unfolding sum_from
sum_from-bits acc [] = omega (arith, bits-lt acc)
sum_from-bits acc (v ∷ vs) = omega (int64_laws, sum_from-bits (add64 acc v) vs)

pub sum_from-Fits : (acc : Money) (vs : List Money) → Fits acc → Fits (sum_from acc vs)
unfolding sum_from
sum_from-Fits acc [] h = h
sum_from-Fits acc (v ∷ vs) h = sum_from-Fits (add64 acc v) vs (add64-Fits acc v)

pub bits_total-append : (xs ys : List Money) → bits_total (xs ++ ys) ≡ bits_total xs + bits_total ys
bits_total-append [] ys = omega arith
bits_total-append (x ∷ xs) ys = omega (arith, bits_total-append xs ys)

pub sum-bits : (vs : List Money) → bits (sum vs) ≡ bits_total vs % full_range
unfolding sum bits
sum-bits vs = rw zero-add at (sum_from-bits (pos 0) vs)

pub sum-Fits : (vs : List Money) → Fits (sum vs)
unfolding sum
sum-Fits vs = sum_from-Fits (pos 0) vs (omega arith, omega arith)
