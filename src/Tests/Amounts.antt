-- ===== src/Tests/Amounts.antt =====
-- Examples for money and for the merchant's fees.
use adquirente.Base.{◌*◌, ◌/◌, ◌≤◌, ◌≡◌, refl, [], ◌∷◌, arith}
use adquirente.Base.Int.{pos}
use adquirente.Shared.Error.{ok}
use adquirente.Shared.Money.{apply_bps}
use adquirente.Shared.Money.Bps.{apply_bps_floor}
use adquirente.Shared.Product.{credit}
use adquirente.Merchant.Fees.{new_fee_plan, mdr}
use adquirente.Merchant.Fees.Rates.{IsValid}
use adquirente.Tests.Data.{plan}

apply_bps_floor_example :
    (apply_bps (pos 9999) (pos 350) ≡ pos (9999 * 350 / 10000)) × (9999 * 350 / 10000 ≤ 9999)
apply_bps_floor_example = apply_bps_floor 9999 350 (omega arith) (omega arith)

new_plan :
    new_fee_plan (pos 150) (pos 300) ((pos 2, pos 350) ∷ (pos 3, pos 400) ∷ []) (pos 200) ≡ ok plan
unfolding new_fee_plan
new_plan = refl

quoted : mdr plan credit (pos 3) ≡ ok (pos 400)
unfolding mdr
quoted = refl

plan-IsValid : IsValid plan
plan-IsValid = record {
  debit_in = omega arith;
  one_shot_in = omega arith;
  installments_in = (
    (omega arith, omega arith, (omega arith, omega arith)),
    ((omega arith, omega arith, (omega arith, omega arith)), tt),
  );
  month_in = omega arith;
}
