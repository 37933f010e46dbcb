-- ===== src/Settlement/Build.antt =====
-- `Build` of internal/domain/settlement/settlement.go: the receivables of a day are added up, the
-- creditors are paid first, and the merchant gets what is left.
pub mod Lots
pub mod Guards
pub mod Conservation
use adquirente.Base.{
  ℕ, zero, suc, Bool, true, false, not, String, str_eq, Option, none, some, List, [], ◌∷◌, ◌++◌,
  ◌==◌, if◌then◌else◌,
}
use adquirente.Base.Int.{ℤ, pos, ltb_ℤ, eqb_ℤ}
use adquirente.Base.Int64.{add64, sub64}
use adquirente.Shared.Error.{
  Error, Result, ok, err, ◌>>=◌, nothing_to_settle, wrong_merchant, wrong_day, wrong_status,
}
use adquirente.Shared.Money.{Money}
use adquirente.Shared.Time.{Time, date_only}
use adquirente.Merchant.{Merchant}
use adquirente.Receivable as Due
use adquirente.Receivable.{Receivable, Lien, scheduled, anticipated}
use adquirente.Settlement.{Settlement, pending, Order, to_merchant_order, to_creditor_order}

-- What every receivable of the lot adds to the settlement.
abbrev pub counted : Receivable → Settlement → Settlement
counted r s = record s {
  total = add64 s.total r.net;
  receivable_ids = s.receivable_ids ++ r.id ∷ [];
}

-- The switch on a receivable's status; `payable` is the local variable of `Build`.
abbrev pub add_due : Due.Status → Receivable → Settlement → Money → Result (Settlement × Money)
add_due scheduled r s payable = ok (counted r s, add64 payable r.net)
add_due anticipated r s payable =
    ok (record (counted r s) { retained = add64 s.retained r.net }, payable)
add_due _ r s payable = err wrong_status

-- The loop of `Build` over the receivables.
unfoldable pub collect :
    String → Time → List Receivable → Settlement → Money → Result (Settlement × Money)
collect merchant_id day [] s payable = ok (s, payable)
collect merchant_id day (r ∷ rs) s payable =
    if not (str_eq r.merchant_id merchant_id)
    then err wrong_merchant
    else if not (r.due_date == day)
    then err wrong_day
    else (add_due r.status r s payable >>= λ (s', payable'). collect merchant_id day rs s' payable')

-- The loop of `Build` over the liens: a creditor is paid before the merchant, up to what there is.
-- `new_id k` is the identifier that `NewID("ord")` draws for the order after k others.
unfoldable pub pay_liens : (ℕ → String) → ℕ → List Lien → Settlement → Money → Settlement × Money
pay_liens new_id k [] s payable = (s, payable)
pay_liens new_id k (l ∷ ls) s payable =
    let amount = if ltb_ℤ payable l.amount then payable else l.amount in
    let order : Order = record {
      id = new_id k;
      kind = to_creditor_order;
      beneficiary = l.creditor_name;
      bank_account = l.creditor;
      amount = amount;
    } in
    let rest =
      pay_liens new_id (suc k) ls
        (record s { orders = s.orders ++ order ∷ []; to_creditors = add64 s.to_creditors amount })
        (sub64 payable amount) in
    if eqb_ℤ payable (pos 0) then (s, payable) else rest

-- The order for what is left to the merchant.
abbrev pub pay_merchant : String → Merchant → Settlement → Money → Settlement
pay_merchant order_id m s payable =
    if ltb_ℤ (pos 0) payable
    then record s {
      orders =
          s.orders
          ++ record {
            id = order_id;
            kind = to_merchant_order;
            beneficiary = m.legal_name;
            bank_account = m.bank_account;
            amount = payable;
          }
            ∷ [];
      to_merchant = payable;
    }
    else s

abbrev pub blank : String → Time → Merchant → Time → Settlement
blank id day m now = record {
  id = id;
  date = day;
  merchant_id = m.id;
  total = pos 0;
  to_merchant = pos 0;
  to_creditors = pos 0;
  retained = pos 0;
  orders = [];
  receivable_ids = [];
  status = pending;
  external_ref = "";
  failure_reason = "";
  created_at = now;
  updated_at = now;
  version = pos 1;
  events = [];
}

-- The liens and the merchant's order, once the receivables are added up.
abbrev pub pay_out : (ℕ → String) → Merchant → List Lien → Settlement × Money → Settlement
pay_out new_id m liens (s, payable) =
    let (s', left) = pay_liens new_id 1 liens s payable in pay_merchant (new_id 0) m s' left

-- `id` is the identifier that `NewID("stl")` draws.
unfoldable pub build :
    String → (ℕ → String) → Time → Merchant → List Receivable → List Lien → Time → Result Settlement
build id new_id date m [] liens now = err nothing_to_settle
build id new_id date m (r ∷ rs) liens now = do
  lot ← collect m.id (date_only date) (r ∷ rs) (blank id (date_only date) m now) (pos 0)
  ok (pay_out new_id m liens lot)
