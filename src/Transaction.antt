-- ===== src/Transaction.antt =====
-- internal/domain/transaction: the card transaction as a state machine with events. A method that
-- changes its receiver returns the new value with its error; the identifiers that `NewID` draws
-- are arguments.
pub mod Card
pub mod Graph
pub mod Trace
pub mod Creation
pub mod Requests
use adquirente.Base.{
  ℕ, Bool, true, false, not, ◌&&◌, ◌||◌, String, str_eq, Option, none, some, List, [], ◌∷◌, ◌++◌,
  ◌==◌, if◌then◌else◌,
}
use adquirente.Base.Int.{ℤ, pos, ltb_ℤ, eqb_ℤ}
use adquirente.Base.Int64.{add64}
use adquirente.Base.Texts.{Text, is_empty}
use adquirente.Shared.Error.{
  Error, Result, ok, err, ◌>>=◌, ◌>>◌, fail_if, Outcome, invalid_amount, invalid_transition,
  merchant_inactive, max_installments, debit_installments, invalid_token,
}
use adquirente.Shared.Money.{Money, is_positive}
use adquirente.Shared.Product.{Product, debit, product_eq}
use adquirente.Shared.Time.{Time}
use adquirente.Shared.Event.{BaseEvent, new_base_event}
use adquirente.Merchant.{Merchant, is_active}
use adquirente.Merchant.Fees.{mdr}
use Card.{CardInfo}

pub data Status : Type 0 where
  pending authorized denied captured canceled settled chargebacked : Status

abbrev pub status_code : Status → ℕ
status_code pending = 0
status_code authorized = 1
status_code denied = 2
status_code captured = 3
status_code canceled = 4
status_code settled = 5
status_code chargebacked = 6

abbrev pub status_eq : Status → Status → Bool
status_eq a b = status_code a == status_code b

-- The table `transitions`.
abbrev pub transitions : Status → List Status
transitions pending = authorized ∷ denied ∷ []
transitions authorized = captured ∷ canceled ∷ []
transitions captured = canceled ∷ settled ∷ chargebacked ∷ []
transitions settled = chargebacked ∷ []
transitions denied = []
transitions canceled = []
transitions chargebacked = []

pub record TransactionAuthorized : Type 0 where
  pub base : BaseEvent
  pub merchant_id : String
  pub amount : Money
  pub product : Product
  pub installments : ℤ
  pub authorization_code : String
  pub nsu : String
  pub card_brand : String
  pub card_last4 : Text

pub record TransactionDenied : Type 0 where
  pub base : BaseEvent
  pub merchant_id : String
  pub amount : Money
  pub response_code : String

pub record TransactionCaptured : Type 0 where
  pub base : BaseEvent
  pub merchant_id : String
  pub amount : Money
  pub product : Product
  pub installments : ℤ
  pub card_brand : String
  pub captured_at : Time

pub record TransactionCanceled : Type 0 where
  pub base : BaseEvent
  pub merchant_id : String
  pub amount : Money

pub record TransactionChargebacked : Type 0 where
  pub base : BaseEvent
  pub merchant_id : String
  pub amount : Money
  pub reason_code : String

-- The events that a transaction records, in the slice `events`.
pub data TransactionEvent : Type 0 where
  transaction_authorized : TransactionAuthorized → TransactionEvent
  transaction_denied : TransactionDenied → TransactionEvent
  transaction_captured : TransactionCaptured → TransactionEvent
  transaction_canceled : TransactionCanceled → TransactionEvent
  transaction_chargebacked : TransactionChargebacked → TransactionEvent

pub record Transaction : Type 0 where
  pub id : String
  pub merchant_id : String
  pub amount : Money
  pub product : Product
  pub installments : ℤ
  pub card : CardInfo
  pub status : Status
  pub authorization_code : String
  pub nsu : String
  pub response_code : String
  pub created_at : Time
  pub authorized_at : Option Time
  pub captured_at : Option Time
  pub canceled_at : Option Time
  pub version : ℤ
  pub events : List TransactionEvent

-- `New`: the checks in their order, and the pending transaction.
unfoldable pub new_transaction :
    String → Merchant → Money → Product → ℤ → CardInfo → Time → Result Transaction
new_transaction id m amount product installments card now = do
  fail_if (not (is_active m)) merchant_inactive
  fail_if (not (is_positive amount)) invalid_amount
  fail_if (ltb_ℤ installments (pos 1) || ltb_ℤ (pos 12) installments) max_installments
  fail_if (product_eq product debit && not (eqb_ℤ installments (pos 1))) debit_installments
  _ ← mdr m.fee_plan product installments
  fail_if (str_eq card.token "" || is_empty card.last4) invalid_token
  ok (record {
    id = id;
    merchant_id = m.id;
    amount = amount;
    product = product;
    installments = installments;
    card = card;
    status = pending;
    authorization_code = "";
    nsu = "";
    response_code = "";
    created_at = now;
    authorized_at = none;
    captured_at = none;
    canceled_at = none;
    version = pos 1;
    events = [];
  })

-- The loop of `transition` over the statuses that the table allows.
search_table : Status → List Status → Transaction → Outcome Transaction
search_table to [] t = (t, some invalid_transition)
search_table to (next ∷ rest) t =
    if status_eq next to
    then (record t { status = to; version = add64 t.version (pos 1) }, none)
    else search_table to rest t

unfoldable pub transition : Status → Transaction → Outcome Transaction
unfolding search_table
transition to t = search_table to (transitions t.status) t

-- `if err := t.transition(to); err != nil { return err }`, then the rest of the method.
abbrev pub and_then : {S : Type 0} → Outcome S → (S → S) → Outcome S
and_then (t, none) f = (f t, none)
and_then (t, some e) f = (t, some e)

unfoldable pub authorize : String → String → String → Time → Transaction → Outcome Transaction
unfolding transition
authorize event_id code nsu now t = and_then (transition authorized t) λ s. record s {
  authorization_code = code;
  nsu = nsu;
  response_code = "00";
  authorized_at = some now;
  events =
      s.events
      ++ transaction_authorized (record {
        base = new_base_event event_id "transaction.authorized" s.id now;
        merchant_id = s.merchant_id;
        amount = s.amount;
        product = s.product;
        installments = s.installments;
        authorization_code = code;
        nsu = nsu;
        card_brand = s.card.brand;
        card_last4 = s.card.last4;
      })
        ∷ [];
}

unfoldable pub deny : String → String → Time → Transaction → Outcome Transaction
unfolding transition
deny event_id response_code now t = and_then (transition denied t) λ s. record s {
  response_code = response_code;
  events =
      s.events
      ++ transaction_denied (record {
        base = new_base_event event_id "transaction.denied" s.id now;
        merchant_id = s.merchant_id;
        amount = s.amount;
        response_code = response_code;
      })
        ∷ [];
}

unfoldable pub capture : String → Time → Transaction → Outcome Transaction
unfolding transition
capture event_id now t = and_then (transition captured t) λ s. record s {
  captured_at = some now;
  events =
      s.events
      ++ transaction_captured (record {
        base = new_base_event event_id "transaction.captured" s.id now;
        merchant_id = s.merchant_id;
        amount = s.amount;
        product = s.product;
        installments = s.installments;
        card_brand = s.card.brand;
        captured_at = now;
      })
        ∷ [];
}

unfoldable pub cancel : String → Time → Transaction → Outcome Transaction
unfolding transition
cancel event_id now t = and_then (transition canceled t) λ s. record s {
  canceled_at = some now;
  events =
      s.events
      ++ transaction_canceled (record {
        base = new_base_event event_id "transaction.canceled" s.id now;
        merchant_id = s.merchant_id;
        amount = s.amount;
      })
        ∷ [];
}

unfoldable pub mark_settled : Transaction → Outcome Transaction
unfolding transition
mark_settled t = transition settled t

unfoldable pub chargeback : String → String → Time → Transaction → Outcome Transaction
unfolding transition
chargeback event_id reason_code now t = and_then (transition chargebacked t) λ s. record s {
  events =
      s.events
      ++ transaction_chargebacked (record {
        base = new_base_event event_id "transaction.chargebacked" s.id now;
        merchant_id = s.merchant_id;
        amount = s.amount;
        reason_code = reason_code;
      })
        ∷ [];
}

-- `PullEvents`: the recorded events, and the transaction without them.
abbrev pub pull_events : Transaction → List TransactionEvent × Transaction
pull_events t = (t.events, record t { events = [] })
