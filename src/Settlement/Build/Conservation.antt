-- ===== src/Settlement/Build/Conservation.antt =====
-- No cent of a settlement is lost: what the merchant, the creditors and the acquirer get.
use mathlib.Core.List.{append-nil, append_assoc}
use native.Mathlib.Nat.{add-zero, zero-add}
use Prim.Native.Nat.{min}
use adquirente.Base.{
  ℕ, zero, suc, ◌+◌, ◌-◌, ◌<◌, ◌≡◌, refl, sym, ap, ◌∙◌, true, false, String, List, [], ◌∷◌, ◌++◌,
  All, map, arith, if◌then◌else◌,
}
use adquirente.Base.Int.{pos, pos_part, eq-pos_part, ltb_ℤ, eqb_ℤ, ◌≤ℤ◌}
use adquirente.Base.Int64.{half_range, add64_pos, sub64_pos}
use adquirente.Shared.Error.{Result, ok}
use adquirente.Shared.Money.{Money}
use adquirente.Shared.Time.{Time, date_only}
use adquirente.Merchant.{Merchant}
use adquirente.Receivable.{Status, Receivable, Lien}
use adquirente.Settlement.{Settlement, Order, to_creditor_order}
use adquirente.Settlement.Build.{pay_liens, pay_merchant, blank, build}
use adquirente.Settlement.Build.Lots.{
  payable_sum, retained_sum, nets_sum, NetsNonneg, IsPayable, tallied, collect_lem, is_open,
  payable_of, retained_of,
}

-- The exact sum of the liens, and of the amounts of orders.
abbrev pub liens_sum : List Lien → ℕ
liens_sum [] = 0
liens_sum (l ∷ ls) = pos_part l.amount + liens_sum ls

abbrev pub orders_sum : List Order → ℕ
orders_sum [] = 0
orders_sum (o ∷ os) = pos_part o.amount + orders_sum os

abbrev pub LiensNonneg : List Lien → Type 0
LiensNonneg = All (λ l. pos 0 ≤ℤ l.amount)

orders_sum-append : (xs ys : List Order) → orders_sum (xs ++ ys) ≡ orders_sum xs + orders_sum ys
orders_sum-append [] ys = omega arith
orders_sum-append (x ∷ xs) ys = omega (arith, orders_sum-append xs ys)

-- A settlement whose creditors are being paid.
abbrev paid : Settlement → ℕ → List Order → Settlement
paid s c os = record s { to_creditors = pos c; orders = os }

-- The loop over the liens pays the creditors all that is payable, up to the sum of the liens.
abbrev PaysLiens : (ℕ → String) → ℕ → List Lien → Settlement → ℕ → ℕ → List Order → Type 0
PaysLiens new_id k ls s c p os =
    (more : List Order) × (pay_liens new_id k ls (paid s c os) (pos p)
      ≡ (paid s (c + min p (liens_sum ls)) (os ++ more), pos (p - liens_sum ls)))
    × (orders_sum more ≡ min p (liens_sum ls))

order_for : String → Lien → Money → Order
order_for id l amount = record {
  id = id;
  kind = to_creditor_order;
  beneficiary = l.creditor_name;
  bank_account = l.creditor;
  amount = amount;
}

-- One round with something to pay: the amount is the lien's, or all that is left.
pay_liens-step :
    (new_id : ℕ → String) (k : ℕ) (l : Lien) (ls : List Lien) (s : Settlement) (c p v : ℕ)
    (os : List Order)
    → l.amount ≡ pos v
    → 0 < p
    → c + p < half_range
    → pay_liens new_id k (l ∷ ls) (paid s c os) (pos p)
      ≡ pay_liens new_id
          (suc k)
          ls
          (paid s (c + min p v) (os ++ order_for (new_id k) l (pos (min p v)) ∷ []))
          (pos (p - min p v))
unfolding pay_liens order_for
pay_liens-step new_id k l ls s c p v os e h fits =
    let amount : (if ltb_ℤ (pos p) (pos v) then pos p else pos v) ≡ pos (min p v) = ground arith in
    let not_zero : eqb_ℤ (pos p) (pos 0) ≡ false = ground arith in
    rw (
      not_zero,
      e,
      amount,
      add64_pos c (min p v) (omega arith),
      sub64_pos p (min p v) (omega arith) (omega arith),
    )

paid_cong :
    (s : Settlement) {c c' : ℕ} {os os' : List Order} {p p' : ℕ}
    → c ≡ c'
    → os ≡ os'
    → p ≡ p'
    → ◌≡◌ {A = Settlement × Money} (paid s c os, pos p) (paid s c' os', pos p')
paid_cong s ec eo ep = cc

pay_liens_lem :
    (new_id : ℕ → String) (k : ℕ) (ls : List Lien) (s : Settlement) (c p : ℕ) (os : List Order)
    → LiensNonneg ls
    → c + p < half_range
    → PaysLiens new_id k ls s c p os
unfolding pay_liens order_for
pay_liens_lem new_id k [] s c p os n fits =
    ([], paid_cong s (omega arith) (sym (append-nil os)) (omega arith), omega arith)
pay_liens_lem new_id k (l ∷ ls) s c zero os n fits =
    ([], paid_cong s (omega arith) (sym (append-nil os)) (omega arith), omega arith)
pay_liens_lem new_id k (l ∷ ls) s c (suc p) os (n, ns) fits =
    let v = pos_part l.amount in
    let a = min (suc p) v in
    let o = order_for (new_id k) l (pos a) in
    let (more, eq, sum) =
      pay_liens_lem new_id (suc k) ls s (c + a) (suc p - a) (os ++ o ∷ []) ns (omega arith) in
    (
      o ∷ more,
      pay_liens-step new_id k l ls s c (suc p) v os (eq-pos_part l.amount n) (omega arith) fits
          ∙ eq
          ∙ paid_cong s (omega arith) (append_assoc os (o ∷ []) more) (omega arith),
      omega arith,
    )

split_net :
    (status : Status) (v : Money)
    → is_open status ≡ true
    → pos_part v ≡ payable_of status v + retained_of status v
split_net status v h = ground arith

open_sum :
    (merchant_id : String) (day : Time) (rs : List Receivable)
    → All (IsPayable merchant_id day) rs
    → nets_sum rs ≡ payable_sum rs + retained_sum rs
open_sum m day [] a = refl
open_sum m day (r ∷ rs) ((owner, due, o), a) =
    let rest = open_sum m day rs a in let here = split_net r.status r.net o in omega arith

-- What a settlement owes to whom, in exact sums.
abbrev pub PaysOut : List Receivable → List Lien → Settlement → Type 0
PaysOut rs liens s =
    (s.total ≡ pos (payable_sum rs + retained_sum rs))
    × (s.retained ≡ pos (retained_sum rs))
    × (s.to_creditors ≡ pos (min (payable_sum rs) (liens_sum liens)))
    × (s.to_merchant ≡ pos (payable_sum rs - liens_sum liens))
    × (orders_sum s.orders ≡ payable_sum rs)
    × (s.receivable_ids ≡ map (λ r. r.id) rs)

-- The creditors have their part `c`, and what is left, `p`, is the merchant's.
abbrev Leaves : Settlement → ℕ → ℕ → List Order → Settlement → Type 0
Leaves s c p os s' =
    (s'.to_merchant ≡ pos p)
    × (orders_sum s'.orders ≡ orders_sum os + p)
    × (s'.to_creditors ≡ pos c)
    × (s'.total ≡ s.total)
    × (s'.retained ≡ s.retained)
    × (s'.receivable_ids ≡ s.receivable_ids)

pay_merchant_lem :
    (order_id : String) (m : Merchant) (s : Settlement) (c p : ℕ) (os : List Order)
    → s.to_merchant ≡ pos 0
    → Leaves s c p os (pay_merchant order_id m (paid s c os) (pos p))
pay_merchant_lem order_id m s c zero os h = (h, omega arith, refl, refl, refl, refl)
pay_merchant_lem order_id m s c (suc p) os h =
    let pays : ltb_ℤ (pos 0) (pos (suc p)) ≡ true = ground arith in
    let sums = orders_sum-append os in
    (rw pays, rw (pays, sums, add-zero), rw pays, rw pays, rw pays, rw pays)

lot_cong :
    (s : Settlement) {t t' q q' p p' : ℕ} {ids : List String}
    → t ≡ t'
    → q ≡ q'
    → p ≡ p'
    → ◌≡◌ {A = Result (Settlement × Money)}
        (ok (tallied s t q ids, pos p))
        (ok (tallied s t' q' ids, pos p'))
lot_cong s et eq ep = cc

-- A lot of receivables that belong to the merchant, fall due on the day and are open, with amounts
-- and liens that are not negative and a sum below 2 ^ 63, is always settled: the total is the sum of
-- the nets, of which the anticipated part is retained; the creditors get what is payable up to the
-- sum of their liens, the merchant gets exactly the rest, and the amounts of the payment orders add
-- up to what is payable.
pub build-PaysOut :
    (id : String) (new_id : ℕ → String) (date : Time) (m : Merchant) (r : Receivable)
    (rs : List Receivable) (liens : List Lien) (now : Time)
    → All (IsPayable m.id (date_only date)) (r ∷ rs)
    → NetsNonneg (r ∷ rs)
    → LiensNonneg liens
    → nets_sum (r ∷ rs) < half_range
    → (s : Settlement) × (build id new_id date m (r ∷ rs) liens now ≡ ok s)
      × PaysOut (r ∷ rs) liens s
unfolding build
build-PaysOut id new_id date m r rs liens now a n ln fits =
    let day = date_only date in
    let lot = r ∷ rs in
    let t = nets_sum lot in
    let q = retained_sum lot in
    let p = payable_sum lot in
    let parts = open_sum m.id day lot a in
    let start = blank id day m now in
    let s = tallied start t q (map (λ r. r.id) lot) in
    let summed =
      collect_lem m.id day lot start 0 0 0 [] a n (omega arith) (omega arith) (omega arith)
      ∙ lot_cong start (zero-add t) (zero-add q) (zero-add p) in
    let (more, paid_out, sum) = pay_liens_lem new_id 1 liens s 0 p [] ln (omega arith) in
    let (left, orders, creditors, total, retained, ids) =
      pay_merchant_lem (new_id 0) m s (0 + min p (liens_sum liens)) (p - liens_sum liens) more
        refl in
    (
      pay_merchant (new_id 0) m (paid s (0 + min p (liens_sum liens)) more)
          (pos (p - liens_sum liens)),
      rw (summed, paid_out),
      (
        total ∙ ap pos parts,
        retained,
        creditors ∙ ap pos (zero-add (min p (liens_sum liens))),
        left,
        omega arith,
        ids,
      ),
    )
