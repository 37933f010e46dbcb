-- ===== src/Shared/Money.antt =====
-- internal/domain/shared/money.go. `Money` is an `int64` number of cents and `Bps` an `int` of
-- hundredths of a percent: an integer in the 64-bit range, with arithmetic that wraps around.
pub mod Split
pub mod Sums
pub mod Bps
use adquirente.Base.{ℕ, ◌-◌, Bool, List, [], ◌∷◌, replicate, if◌then◌else◌}
use adquirente.Base.Int.{ℤ, pos, pos_part, quot, ltb_ℤ, eqb_ℤ}
use adquirente.Base.Int64.{add64, sub64, mul64}

abbrev pub Money : Type 0
Money = ℤ

abbrev pub Bps : Type 0
Bps = ℤ

abbrev pub is_positive : Money → Bool
is_positive m = ltb_ℤ (pos 0) m

abbrev pub is_zero : Money → Bool
is_zero m = eqb_ℤ m (pos 0)

-- The product is taken in 64 bits before the division.
unfoldable pub apply_bps : Money → Bps → Money
apply_bps gross rate = quot (mul64 gross rate) 10000

-- `parts[0] += rest`
abbrev pub add_first : Money → List Money → List Money
add_first rest [] = []
add_first rest (p ∷ ps) = add64 p rest ∷ ps

unfoldable pub split : Money → ℤ → List Money
split total n =
    let base = quot total (pos_part n) in
    let rest = sub64 total (mul64 base n) in
    if ltb_ℤ (pos 0) n then add_first rest (replicate (pos_part n) base) else []

-- The loop of `Sum`.
unfoldable pub sum_from : Money → List Money → Money
sum_from total [] = total
sum_from total (v ∷ vs) = sum_from (add64 total v) vs

unfoldable pub sum : List Money → Money
unfolding sum_from
sum values = sum_from (pos 0) values
