-- ===== src/Merchant/Fees.antt =====
-- internal/domain/merchant/fee_plan.go
pub mod Rates
use adquirente.Base.{
  Bool, true, false, ◌||◌, ◌&&◌, List, [], ◌∷◌, none, some, Option, if◌then◌else◌,
}
use adquirente.Base.Int.{ℤ, pos, ltb_ℤ, eqb_ℤ}
use adquirente.Base.Assoc.{lookup, insert, int_eq}
use adquirente.Shared.Error.{
  Result, ok, err, ◌>>=◌, fail_if, invalid_fee_plan, installments_not_allowed,
}
use adquirente.Shared.Money.{Bps}
use adquirente.Shared.Product.{Product, debit, credit, product_eq}

-- `credit_installments` maps a number of instalments to a rate.
pub record FeePlan : Type 0 where
  pub debit_rate : Bps
  pub credit_one_shot : Bps
  pub credit_installments : List (ℤ × Bps)
  pub anticipation_rate_month : Bps

abbrev below_zero : Bps → Bool
below_zero r = ltb_ℤ r (pos 0)

abbrev above_all : Bps → Bool
above_all r = ltb_ℤ (pos 10000) r

-- The loop of `NewFeePlan` over the map, in any order of its entries.
copy_rates : List (ℤ × Bps) → List (ℤ × Bps) → Result (List (ℤ × Bps))
copy_rates rates [] = ok rates
copy_rates rates ((n, bps) ∷ entries) =
    let rest = copy_rates (insert n bps rates) entries in
    if ltb_ℤ n (pos 2) || ltb_ℤ (pos 12) n || below_zero bps || above_all bps
    then err invalid_fee_plan
    else rest

unfoldable pub new_fee_plan : Bps → Bps → List (ℤ × Bps) → Bps → Result FeePlan
unfolding copy_rates
new_fee_plan debit_rate one_shot installments month =
    if below_zero debit_rate
      || below_zero one_shot
      || below_zero month
      || above_all debit_rate
      || above_all one_shot
    then err invalid_fee_plan
    else copy_rates [] installments >>= λ rates. ok (record {
      debit_rate = debit_rate;
      credit_one_shot = one_shot;
      credit_installments = rates;
      anticipation_rate_month = month;
    })

abbrev or_not_allowed : Option Bps → Result Bps
or_not_allowed none = err installments_not_allowed
or_not_allowed (some bps) = ok bps

-- The merchant discount rate of a sale.
unfoldable pub mdr : FeePlan → Product → ℤ → Result Bps
mdr p product installments =
    if product_eq product debit && eqb_ℤ installments (pos 1)
    then ok p.debit_rate
    else if product_eq product credit && eqb_ℤ installments (pos 1)
    then ok p.credit_one_shot
    else if product_eq product credit && ltb_ℤ (pos 1) installments
    then or_not_allowed (lookup installments p.credit_installments)
    else err installments_not_allowed
