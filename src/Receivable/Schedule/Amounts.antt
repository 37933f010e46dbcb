-- ===== src/Receivable/Schedule/Amounts.antt =====
-- The amounts of a schedule: it always succeeds on a captured sale with a rate, and no cent of the
-- sale or of its fee is lost or made.
use native.Mathlib.Nat.{zero-add}
use adquirente.Base.{
  ℕ, zero, suc, ◌+◌, ◌-◌, ◌%◌, ◌<◌, ◌≡◌, refl, ap, ◌∙◌, String, some, List, [], ◌∷◌, map, length,
  get_elem?, All, arith,
}
use adquirente.Base.Int.{ℤ, pos, pos_part}
use adquirente.Base.Int64.{
  Fits, bits, full_range, sub64, bits-sub64, sub64-Fits, bits-lt, eq_of_bits, int64_laws,
}
use adquirente.Shared.Error.{Result, ok}
use adquirente.Shared.Money.{Money, Bps, apply_bps, split, sum}
use adquirente.Shared.Money.Bps.{apply_bps-Fits}
use adquirente.Shared.Money.Split.{split_total}
use adquirente.Shared.Money.Sums.{bits_total, sum-bits, sum-Fits}
use adquirente.Shared.Time.{Time, date_only}
use adquirente.Shared.Calendar.{BusinessCalendar}
use adquirente.Merchant.Fees.{FeePlan, mdr}
use adquirente.Transaction.{Transaction}
use adquirente.Receivable.{Receivable, new_receivable}
use adquirente.Receivable.Schedule.{
  due_date, build_parts, captured_time, schedule_from, schedule, index,
}

index-some : (ps : List Money) (i : ℕ) {v : Money} → get_elem? ps i ≡ some v → index ps i ≡ ok v
unfolding index
index-some ps i {v} h = rw (h, index)

module _ (new_id : ℕ → String) (cal : BusinessCalendar) (tx : Transaction)
    (captured_on now : Time) where
  -- The schedule as a plain recursion over the two lists of parts.
  unfoldable pub rows : ℕ → List Money → List Money → List Receivable
  rows k [] fs = []
  rows k (g ∷ gs) [] = []
  rows k (g ∷ gs) (f ∷ fs) =
      new_receivable (new_id k) tx.id tx.merchant_id (pos k) tx.installments tx.product
        tx.card.brand g f (due_date cal tx.product captured_on k) now
      ∷ rows (k + 1) gs fs

  -- The loop reads the parts from place k on.
  build_parts-rows :
      (gross_parts fee_parts gs fs : List Money) (k left : ℕ)
      → ((i : ℕ) → get_elem? gross_parts (k + i) ≡ get_elem? gs i)
      → ((i : ℕ) → get_elem? fee_parts (k + i) ≡ get_elem? fs i)
      → length gs ≡ left
      → length fs ≡ left
      → build_parts new_id cal tx gross_parts fee_parts captured_on now (k + 1) left
        ≡ ok (rows (k + 1) gs fs)
  unfolding build_parts rows
  build_parts-rows gp fp [] [] k zero hg hf lg lf = refl
  build_parts-rows gp fp [] (f ∷ fs) k zero hg hf lg lf = absurd (omega arith)
  build_parts-rows gp fp (g ∷ gs) fs k zero hg hf lg lf = absurd (omega arith)
  build_parts-rows gp fp [] fs k (suc left) hg hf lg lf = absurd (omega arith)
  build_parts-rows gp fp (g ∷ gs) [] k (suc left) hg hf lg lf = absurd (omega arith)
  build_parts-rows gp fp (g ∷ gs) (f ∷ fs) k (suc left) hg hf lg lf =
      let rest =
        build_parts-rows gp fp gs fs (k + 1) left
          (λ i. ap (get_elem? gp) (omega arith) ∙ hg (suc i))
          (λ i. ap (get_elem? fp) (omega arith) ∙ hf (suc i)) (omega arith) (omega arith) in
      let at : k + 1 - 1 ≡ k + 0 = omega arith in
      rw (at, index-some gp (k + 0) (hg 0), index-some fp (k + 0) (hf 0), rest)

module _ (new_id : ℕ → String) (cal : BusinessCalendar) (tx : Transaction)
    (captured_on now : Time) where
  abbrev parts : ℕ → List Money → List Money → List Receivable
  parts = rows new_id cal tx captured_on now

  rows-gross :
      (k : ℕ) (gs fs : List Money) → length gs ≡ length fs → map (λ r. r.gross) (parts k gs fs) ≡ gs
  unfolding rows new_receivable
  rows-gross k [] fs h = refl
  rows-gross k (g ∷ gs) [] h = absurd (omega arith)
  rows-gross k (g ∷ gs) (f ∷ fs) h = ap (λ l. g ∷ l) (rows-gross (k + 1) gs fs (omega arith))

  rows-fee :
      (k : ℕ) (gs fs : List Money) → length gs ≡ length fs → map (λ r. r.fee) (parts k gs fs) ≡ fs
  unfolding rows new_receivable
  rows-fee k [] [] h = refl
  rows-fee k [] (f ∷ fs) h = absurd (omega arith)
  rows-fee k (g ∷ gs) [] h = absurd (omega arith)
  rows-fee k (g ∷ gs) (f ∷ fs) h = ap (λ l. f ∷ l) (rows-fee (k + 1) gs fs (omega arith))

  -- Every part's net is its gross less its fee, in 64 bits.
  rows-net : (k : ℕ) (gs fs : List Money) → All (λ r. r.net ≡ sub64 r.gross r.fee) (parts k gs fs)
  unfolding rows new_receivable
  rows-net k [] fs = tt
  rows-net k (g ∷ gs) [] = tt
  rows-net k (g ∷ gs) (f ∷ fs) = (refl, rows-net (k + 1) gs fs)

abbrev gross_of : List Receivable → List Money
gross_of = map (λ r. r.gross)

abbrev fees_of : List Receivable → List Money
fees_of = map (λ r. r.fee)

abbrev nets_of : List Receivable → List Money
nets_of = map (λ r. r.net)

abbrev NetsAdd : List Receivable → Type 0
NetsAdd = All (λ r. r.net ≡ sub64 r.gross r.fee)

nets-bits :
    (rs : List Receivable)
    → NetsAdd rs
    → (bits_total (nets_of rs) + bits_total (fees_of rs)) % full_range
      ≡ bits_total (gross_of rs) % full_range
nets-bits [] h = refl
nets-bits (r ∷ rs) h =
    omega (
      arith,
      nets-bits rs h.1,
      ap bits h.0,
      bits-sub64 r.gross r.fee,
      bits-lt r.gross,
      bits-lt r.fee,
    )

-- The net amounts add up to the gross amounts less the fees, in 64 bits.
pub sum-net :
    (rs : List Receivable)
    → NetsAdd rs
    → sum (nets_of rs) ≡ sub64 (sum (gross_of rs)) (sum (fees_of rs))
sum-net rs h = eq_of_bits _ _ (sum-Fits (nets_of rs)) (sub64-Fits _ _) (
    omega (
      int64_laws,
      sum-bits (nets_of rs),
      sum-bits (gross_of rs),
      sum-bits (fees_of rs),
      nets-bits rs h,
    ))

-- What the amounts of a schedule promise: n instalments, whose gross amounts add up to the sale and
-- whose fees add up to the fee, each net amount being the gross less the fee.
pub record Adds (amount fee : Money) (n : ℕ) (rs : List Receivable) : Type 0 where
  pub count : length rs ≡ n
  pub gross_total : sum (gross_of rs) ≡ amount
  pub fee_total : sum (fees_of rs) ≡ fee
  pub net_total : sum (nets_of rs) ≡ sub64 amount fee
  pub each_net : NetsAdd rs

length-rows :
    (new_id : ℕ → String) (cal : BusinessCalendar) (tx : Transaction) (captured_on now : Time)
    (k : ℕ) (gs fs : List Money)
    → length gs ≡ length fs
    → length (rows new_id cal tx captured_on now k gs fs) ≡ length gs
unfolding rows
length-rows new_id cal tx c now k [] fs h = refl
length-rows new_id cal tx c now k (g ∷ gs) [] h = absurd (omega arith)
length-rows new_id cal tx c now k (g ∷ gs) (f ∷ fs) h =
    omega (arith, length-rows new_id cal tx c now (k + 1) gs fs (omega arith))

-- The loop as a function of the number of instalments.
abbrev build_parts_at :
    (ℕ → String) → Transaction → BusinessCalendar → Time → Time → Bps → ℤ → Result (List Receivable)
build_parts_at new_id tx cal now at rate n =
    build_parts new_id cal tx (split tx.amount n) (split (apply_bps tx.amount rate) n)
      (date_only at) now 1 (pos_part n)

get_elem?-zero_add : (vs : List Money) (i : ℕ) → get_elem? vs (0 + i) ≡ get_elem? vs i
get_elem?-zero_add vs i = rw zero-add

schedule_from-rows :
    (new_id : ℕ → String) (tx : Transaction) (plan : FeePlan) (cal : BusinessCalendar)
    (now at : Time) (rate : Bps) (n : ℕ)
    → mdr plan tx.product tx.installments ≡ ok rate
    → tx.installments ≡ pos n
    → 0 < n
    → Fits tx.amount
    → schedule_from new_id tx plan cal now (some at)
      ≡ ok (
          rows new_id cal tx
            (date_only at)
            now
            1
            (split tx.amount (pos n))
            (split (apply_bps tx.amount rate) (pos n)))
unfolding schedule_from
schedule_from-rows new_id tx plan cal now at rate n m i p fits =
    let gs = split tx.amount (pos n) in
    let fs = split (apply_bps tx.amount rate) (pos n) in
    rw (m, ap (build_parts_at new_id tx cal now at rate) i)
      (build_parts-rows new_id cal tx (date_only at) now gs fs gs fs 0 n (get_elem?-zero_add gs)
        (get_elem?-zero_add fs) (split_total tx.amount n fits p).1
        (split_total (apply_bps tx.amount rate) n (apply_bps-Fits tx.amount rate) p).1)

pub schedule-rows :
    (new_id : ℕ → String) (tx : Transaction) (plan : FeePlan) (cal : BusinessCalendar)
    (now at : Time) (rate : Bps) (n : ℕ)
    → captured_time tx ≡ some at
    → mdr plan tx.product tx.installments ≡ ok rate
    → tx.installments ≡ pos n
    → 0 < n
    → Fits tx.amount
    → schedule new_id tx plan cal now
      ≡ ok (
          rows new_id cal tx
            (date_only at)
            now
            1
            (split tx.amount (pos n))
            (split (apply_bps tx.amount rate) (pos n)))
unfolding schedule
schedule-rows new_id tx plan cal now at rate n c m i p fits =
    ap (schedule_from new_id tx plan cal now) c
    ∙ schedule_from-rows new_id tx plan cal now at rate n m i p fits

-- A captured sale with a rate in the plan and at least one instalment always has a schedule, and no
-- cent is lost: there are n receivables, their gross amounts add up to the sale's amount and their
-- fees to the fee that `ApplyBps` takes of it, and each net amount is the gross less the fee.
pub schedule-Adds :
    (new_id : ℕ → String) (tx : Transaction) (plan : FeePlan) (cal : BusinessCalendar)
    (now at : Time) (rate : Bps) (n : ℕ)
    → captured_time tx ≡ some at
    → mdr plan tx.product tx.installments ≡ ok rate
    → tx.installments ≡ pos n
    → 0 < n
    → Fits tx.amount
    → (rs : List Receivable) × (schedule new_id tx plan cal now ≡ ok rs)
      × Adds tx.amount (apply_bps tx.amount rate) n rs
schedule-Adds new_id tx plan cal now at rate n c m i p fits =
    let gs = split tx.amount (pos n) in
    let fs = split (apply_bps tx.amount rate) (pos n) in
    let (gross_sum, gross_count) = split_total tx.amount n fits p in
    let (fee_sum, fee_count) =
      split_total (apply_bps tx.amount rate) n (apply_bps-Fits tx.amount rate) p in
    let same : length gs ≡ length fs = omega arith in
    let rs = rows new_id cal tx (date_only at) now 1 gs fs in
    let gross_eq : sum (gross_of rs) ≡ tx.amount =
      rw (rows-gross new_id cal tx (date_only at) now 1 gs fs same) gross_sum in
    let fee_eq : sum (fees_of rs) ≡ apply_bps tx.amount rate =
      rw (rows-fee new_id cal tx (date_only at) now 1 gs fs same) fee_sum in
    let nets = rows-net new_id cal tx (date_only at) now 1 gs fs in
    (
      rs,
      schedule-rows new_id tx plan cal now at rate n c m i p fits,
      record {
        count = length-rows new_id cal tx (date_only at) now 1 gs fs same ∙ gross_count;
        gross_total = gross_eq;
        fee_total = fee_eq;
        net_total =
            sum-net rs nets
            ∙ ap (λ a. sub64 a (sum (fees_of rs))) gross_eq
            ∙ ap (sub64 tx.amount) fee_eq;
        each_net = nets;
      },
    )
