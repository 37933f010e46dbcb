-- ===== src/Transaction/Creation.antt =====
-- `New`: which sales it accepts, and what it makes of them.
use adquirente.Base.{◌≡◌, refl, sym, ◌∙◌, ◌↔◌, inl, inr, false, str_eq, String, none, [], arith}
use adquirente.Base.Int.{ℤ, pos, ◌≤ℤ◌}
use adquirente.Base.Texts.{is_empty}
use adquirente.Shared.Error.{ok, Result-cases}
use adquirente.Shared.Money.{Money, Bps}
use adquirente.Shared.Product.{Product, debit}
use adquirente.Shared.Time.{Time}
use adquirente.Merchant.{Merchant, active}
use adquirente.Merchant.Fees.{mdr}
use adquirente.Transaction.Card.{CardInfo}
use adquirente.Transaction.{Transaction, pending, new_transaction}
use adquirente.Transaction.Trace.{IsConsistent}

-- What a sale must be, at a rate: an active merchant, a positive amount, from 1 to 12 instalments, one alone
-- on debit, a rate in the merchant's plan, and a card with a token and its last digits.
pub record IsSale (m : Merchant) (amount : Money) (product : Product) (n : ℤ) (card : CardInfo)
    (rate : Bps) : Type 0 where
  pub merchant_active : m.status ≡ active
  pub amount_positive : pos 1 ≤ℤ amount
  pub at_least_one : pos 1 ≤ℤ n
  pub at_most_twelve : n ≤ℤ pos 12
  pub debit_at_once : product ≡ debit → n ≡ pos 1
  pub plan_rate : mdr m.fee_plan product n ≡ ok rate
  pub card_token : str_eq card.token "" ≡ false
  pub card_digits : is_empty card.last4 ≡ false

-- The transaction that `New` makes.
abbrev made : String → Merchant → Money → Product → ℤ → CardInfo → Time → Transaction
made id m amount product n card now = record {
  id = id;
  merchant_id = m.id;
  amount = amount;
  product = product;
  installments = n;
  card = card;
  status = pending;
  authorization_code = "";
  nsu = "";
  response_code = "";
  created_at = now;
  authorized_at = none;
  captured_at = none;
  canceled_at = none;
  version = pos 1;
  events = [];
}

made-IsConsistent :
    (id : String) (m : Merchant) (amount : Money) (product : Product) (n : ℤ) (card : CardInfo)
    (now : Time)
    → IsConsistent (made id m amount product n card now)
made-IsConsistent id m amount product n card now = ground arith

new_transaction_of_IsSale :
    (id : String) (m : Merchant) (amount : Money) (product : Product) (n : ℤ) (card : CardInfo)
    (now : Time) (rate : Bps)
    → IsSale m amount product n card rate
    → new_transaction id m amount product n card now ≡ ok (made id m amount product n card now)
unfolding new_transaction
new_transaction_of_IsSale id m amount product n card now rate h = ground arith

IsSale-of_new_transaction :
    (id : String) (m : Merchant) (amount : Money) (product : Product) (n : ℤ) (card : CardInfo)
    (now : Time) (t : Transaction)
    → new_transaction id m amount product n card now ≡ ok t
    → (rate : Bps) × IsSale m amount product n card rate
unfolding new_transaction
IsSale-of_new_transaction id m amount product n card now t h =
    elim (Result-cases (mdr m.fee_plan product n)) [
      | inl (rate, quoted) ↦ (rate, ground arith)
      | inr (e, refused) ↦ absurd (ground arith)
    ]

-- `New` accepts exactly the sales, and the transaction that it then returns is consistent, pending
-- and at version 1, with the given amount, product and instalments and the merchant's identity.
pub new_transaction_iff :
    (id : String) (m : Merchant) (amount : Money) (product : Product) (n : ℤ) (card : CardInfo)
    (now : Time)
    → (((t : Transaction) × (new_transaction id m amount product n card now ≡ ok t))
        ↔ ((rate : Bps) × IsSale m amount product n card rate))
      × ((t : Transaction)
          → new_transaction id m amount product n card now ≡ ok t
          → IsConsistent t
            × (t.status ≡ pending)
            × (t.version ≡ pos 1)
            × (t.amount ≡ amount)
            × (t.product ≡ product)
            × (t.installments ≡ n)
            × (t.merchant_id ≡ m.id))
new_transaction_iff id m amount product n card now = (
  (
    λ made_one. IsSale-of_new_transaction id m amount product n card now made_one.0 made_one.1,
    λ sale. (
      made id m amount product n card now,
      new_transaction_of_IsSale id m amount product n card now sale.0 sale.1,
    ),
  ),
  λ t h.
      let (rate, sale) = IsSale-of_new_transaction id m amount product n card now t h in
      let e : made id m amount product n card now ≡ t =
        ok_injective
          (sym (new_transaction_of_IsSale id m amount product n card now rate sale) ∙ h) in
      rw (← e)
        (made-IsConsistent id m amount product n card now, refl, refl, refl, refl, refl, refl),
)
  where
    ok_injective : {s t : Transaction} → ok s ≡ ok t → s ≡ t
    ok_injective h = cc
