-- ===== src/Receivable/Schedule/Dates.antt =====
-- The due dates of a schedule, on any lawful business calendar.
use native.Mathlib.Decide.{dec_le}
use adquirente.Base.{ℕ, ◌+◌, ◌*◌, ◌≤◌, ◌<◌, ◌≡◌, ap, String, true, some, List, [], ◌∷◌, All, arith}
use adquirente.Base.Int.{pos}
use adquirente.Base.Int64.{Fits}
use adquirente.Shared.Error.{ok}
use adquirente.Shared.Money.{Money, Bps, apply_bps, split}
use adquirente.Shared.Product.{Product, debit, credit}
use adquirente.Shared.Time.{Time, date_only, add_days, day_number}
use adquirente.Shared.Calendar.{BusinessCalendar}
use adquirente.Shared.Calendar.Laws.{IsLawful}
use adquirente.Merchant.Fees.{FeePlan, mdr}
use adquirente.Transaction.{Transaction}
use adquirente.Receivable.{Receivable, new_receivable}
use adquirente.Receivable.Schedule.{due_date, captured_time, schedule}
use adquirente.Receivable.Schedule.Amounts.{rows, schedule-rows}

-- A date on which an instalment of a sale captured on a day may fall due.
abbrev pub IsDue : BusinessCalendar → Time → Time → Type 0
IsDue cal captured_on d = (cal.is_business_day d ≡ true) × (date_only d ≡ d) × (captured_on < d)

module _ (cal : BusinessCalendar) (law : IsLawful cal) where
  next_mono :
      (t u : Time) → date_only t ≤ date_only u → cal.next_business_day t ≤ cal.next_business_day u
  next_mono t u h = elim (dec_le (cal.next_business_day t) (cal.next_business_day u)) [
    | yes le ↦ le
    | no gt ↦
        let v = cal.next_business_day u in
        let closed =
          law.next_least t (day_number v) (omega (arith, law.next_later u, law.next_midnight u))
            (omega (arith, law.next_midnight u)) in
        absurd (cc (law.next_open u, ap cal.is_business_day (law.next_midnight u), closed))
  ]

  due_date-IsDue :
      (product : Product) (on : Time) (k : ℕ)
      → date_only on ≡ on
      → 0 < k
      → IsDue cal on (due_date cal product on k)
  due_date-IsDue debit on k m h = (
    law.add_open on (pos 1) (omega arith),
    law.add_midnight on (pos 1),
    omega (arith, law.add_later on (pos 1)),
  )
  due_date-IsDue credit on k m h =
      let t = add_days on (30 * k) in
      (law.next_open t, law.next_midnight t, omega (arith, law.next_later t))

  due_date_mono :
      (product : Product) (on : Time) (j k : ℕ)
      → j ≤ k
      → due_date cal product on j ≤ due_date cal product on k
  due_date_mono debit on j k h = omega arith
  due_date_mono credit on j k h =
      next_mono (add_days on (30 * j)) (add_days on (30 * k)) (omega arith)

abbrev AllFrom : Time → List Receivable → Type 0
AllFrom d = All (λ r. d ≤ r.due_date)

-- The due dates do not fall.
abbrev pub DueInOrder : List Receivable → Type 0
DueInOrder [] = Unit
DueInOrder (r ∷ rs) = AllFrom r.due_date rs × DueInOrder rs

module _ (new_id : ℕ → String) (cal : BusinessCalendar) (law : IsLawful cal) (tx : Transaction)
    (on now : Time) (midnight : date_only on ≡ on) where
  abbrev parts : ℕ → List Money → List Money → List Receivable
  parts = rows new_id cal tx on now

  abbrev due : ℕ → Time
  due k = due_date cal tx.product on k

  same_date : (k : ℕ) → 0 < k → date_only (due k) ≡ due k
  same_date k h = (due_date-IsDue cal law tx.product on k midnight h).1

  rows-IsDue :
      (k : ℕ) (gs fs : List Money) → 0 < k → All (λ r. IsDue cal on r.due_date) (parts k gs fs)
  unfolding rows new_receivable
  rows-IsDue k [] fs h = tt
  rows-IsDue k (g ∷ gs) [] h = tt
  rows-IsDue k (g ∷ gs) (f ∷ fs) h = (
    rw (same_date k h) (due_date-IsDue cal law tx.product on k midnight h),
    rows-IsDue (k + 1) gs fs (omega arith),
  )

  rows-from : (j k : ℕ) (gs fs : List Money) → 0 < k → j ≤ k → AllFrom (due j) (parts k gs fs)
  unfolding rows new_receivable
  rows-from j k [] fs h le = tt
  rows-from j k (g ∷ gs) [] h le = tt
  rows-from j k (g ∷ gs) (f ∷ fs) h le = (
    rw (same_date k h) (due_date_mono cal law tx.product on j k le),
    rows-from j (k + 1) gs fs (omega arith) (omega arith),
  )

  rows-DueInOrder : (k : ℕ) (gs fs : List Money) → 0 < k → DueInOrder (parts k gs fs)
  unfolding rows new_receivable
  rows-DueInOrder k [] fs h = tt
  rows-DueInOrder k (g ∷ gs) [] h = tt
  rows-DueInOrder k (g ∷ gs) (f ∷ fs) h = (
    rw (same_date k h) (rows-from k (k + 1) gs fs (omega arith) (omega arith)),
    rows-DueInOrder (k + 1) gs fs (omega arith),
  )

-- On a lawful calendar, every receivable of a schedule falls due on a business day after the day of
-- the capture, and no later instalment falls due before an earlier one.
pub schedule-IsDue :
    (new_id : ℕ → String) (tx : Transaction) (plan : FeePlan) (cal : BusinessCalendar)
    (now at : Time) (rate : Bps) (n : ℕ)
    → IsLawful cal
    → captured_time tx ≡ some at
    → mdr plan tx.product tx.installments ≡ ok rate
    → tx.installments ≡ pos n
    → 0 < n
    → Fits tx.amount
    → (rs : List Receivable) × (schedule new_id tx plan cal now ≡ ok rs)
      × All (λ r. IsDue cal (date_only at) r.due_date) rs
      × DueInOrder rs
schedule-IsDue new_id tx plan cal now at rate n law c m i p fits =
    let gs = split tx.amount (pos n) in
    let fs = split (apply_bps tx.amount rate) (pos n) in
    let day : date_only (date_only at) ≡ date_only at = omega arith in
    (
      rows new_id cal tx (date_only at) now 1 gs fs,
      schedule-rows new_id tx plan cal now at rate n c m i p fits,
      rows-IsDue new_id cal law tx (date_only at) now day 1 gs fs (omega arith),
      rows-DueInOrder new_id cal law tx (date_only at) now day 1 gs fs (omega arith),
    )
