-- ===== src/Receivable/Schedule.antt =====
-- internal/domain/receivable/schedule.go: the instalments that a captured sale is paid in.
pub mod Amounts
pub mod Dates
use adquirente.Base.{
  ℕ, zero, suc, ◌+◌, ◌-◌, ◌*◌, Bool, true, false, not, ◌||◌, String, Option, none, some, List, [],
  ◌∷◌, get_elem?, if◌then◌else◌,
}
use adquirente.Base.Int.{ℤ, pos, pos_part}
use adquirente.Shared.Error.{Error, Result, ok, err, ◌>>=◌, not_captured, index_out_of_range}
use adquirente.Shared.Money.{Money, apply_bps, split}
use adquirente.Shared.Product.{Product, debit, product_eq}
use adquirente.Shared.Time.{Time, date_only, add_days}
use adquirente.Shared.Calendar.{BusinessCalendar}
use adquirente.Merchant.Fees.{FeePlan, mdr}
use adquirente.Transaction.{Transaction, captured, status_eq}
use adquirente.Receivable.{Receivable, new_receivable}

-- The due date of instalment k: one business day after the capture on debit, and 30 k days after
-- it, moved to a business day, on credit.
abbrev pub due_date : BusinessCalendar → Product → Time → ℕ → Time
due_date cal product captured_on k =
    if product_eq product debit
    then cal.add_business_days captured_on (pos 1)
    else cal.next_business_day (add_days captured_on (30 * k))

unfoldable pub index : List Money → ℕ → Result Money
index parts i = elim (get_elem? parts i) [ none ↦ err index_out_of_range | some v ↦ ok v ]

-- The loop of `Schedule` from instalment k on, with the number of rounds left. `new_id k` is the
-- identifier that `NewID("rcv")` draws in round k.
build_parts :
    (ℕ → String)
    → BusinessCalendar
    → Transaction
    → List Money
    → List Money
    → Time
    → Time
    → ℕ
    → ℕ
    → Result (List Receivable)
build_parts new_id cal tx gross_parts fee_parts captured_on now k zero = ok []
build_parts new_id cal tx gross_parts fee_parts captured_on now k (suc left) = do
  gross ← index gross_parts (k - 1)
  fee ← index fee_parts (k - 1)
  rest ← build_parts new_id cal tx gross_parts fee_parts captured_on now (k + 1) left
  ok (
      new_receivable (new_id k) tx.id tx.merchant_id (pos k) tx.installments tx.product
        tx.card.brand gross fee (due_date cal tx.product captured_on k) now
      ∷ rest)

-- The time of capture of a captured transaction.
abbrev pub captured_time : Transaction → Option Time
captured_time tx = if not (status_eq tx.status captured) then none else tx.captured_at

-- The rest of `Schedule`, once the time of capture is known.
schedule_from :
    (ℕ → String)
    → Transaction
    → FeePlan
    → BusinessCalendar
    → Time
    → Option Time
    → Result (List Receivable)
schedule_from new_id tx plan cal now none = err not_captured
schedule_from new_id tx plan cal now (some captured_at) = do
  rate ← mdr plan tx.product tx.installments
  build_parts new_id cal tx (split tx.amount tx.installments)
      (split (apply_bps tx.amount rate) tx.installments) (date_only captured_at) now 1
      (pos_part tx.installments)

unfoldable pub schedule :
    (ℕ → String) → Transaction → FeePlan → BusinessCalendar → Time → Result (List Receivable)
unfolding schedule_from build_parts
schedule new_id tx plan cal now = schedule_from new_id tx plan cal now (captured_time tx)
