-- ===== src/Http/Answers.antt =====
-- The responses of internal/handler/http/dto.go, and `Money.String`.
use adquirente.Base.{Bool, String, Option, List, map, if◌then◌else◌}
use adquirente.Base.Int.{ℤ, pos, quot, ltb_ℤ}
use adquirente.Base.Int64.{sub64, mul64}
use adquirente.Base.Texts.{Text, joined}
use adquirente.Shared.Money.{Money}
use adquirente.Shared.Time.{Time}
use adquirente.Shared.Product.{product_name}
use adquirente.Merchant.{Merchant}
use adquirente.Merchant.Document.{masked}
use adquirente.Transaction.{Transaction}
use adquirente.Receivable.{Receivable}
use adquirente.Anticipation.{Anticipation, Item}
use adquirente.Chargeback.{Chargeback}
use adquirente.Http.Names.{
  merchant_status, sale_status, receivable_status, anticipation_status, chargeback_status,
}

-- `Time.Format("2006-01-02")`, and the verbs `%d` and `%02d` of `Sprintf`.
pub record Printing : Type 0 where
  pub date_text : Time → String
  pub decimal : ℤ → String
  pub two_digits : ℤ → String

-- `v % 100`
abbrev pub cents : ℤ → ℤ
cents v = sub64 v (mul64 (quot v 100) (pos 100))

-- `Money.String`; the negation wraps around.
unfoldable pub money_text : Printing → Money → String
money_text p m =
    let is_negative = ltb_ℤ m (pos 0) in
    let v = if is_negative then sub64 (pos 0) m else m in
    joined (if is_negative then "-" else "")
      (joined "R$ " (joined (p.decimal (quot v 100)) (joined "," (p.two_digits (cents v)))))

pub record MerchantResponse : Type 0 where
  pub id : String
  pub document : Text
  pub legal_name : Text
  pub mcc : Text
  pub status : String
  pub webhook_url : Text
  pub auto_anticipation : Bool
  pub created_at : Time

abbrev pub to_merchant_response : Merchant → MerchantResponse
to_merchant_response m = record {
  id = m.id;
  document = masked m.document;
  legal_name = m.legal_name;
  mcc = m.mcc;
  status = merchant_status m.status;
  webhook_url = m.webhook_url;
  auto_anticipation = m.auto_anticipation;
  created_at = m.created_at;
}

pub record TransactionResponse : Type 0 where
  pub id : String
  pub merchant_id : String
  pub amount : ℤ
  pub amount_formatted : String
  pub product : String
  pub installments : ℤ
  pub status : String
  pub authorization_code : String
  pub nsu : String
  pub response_code : String
  pub card_brand : String
  pub card_last4 : Text
  pub created_at : Time
  pub captured_at : Option Time
  pub canceled_at : Option Time

abbrev pub to_transaction_response : Printing → Transaction → TransactionResponse
to_transaction_response p t = record {
  id = t.id;
  merchant_id = t.merchant_id;
  amount = t.amount;
  amount_formatted = money_text p t.amount;
  product = product_name t.product;
  installments = t.installments;
  status = sale_status t.status;
  authorization_code = t.authorization_code;
  nsu = t.nsu;
  response_code = t.response_code;
  card_brand = t.card.brand;
  card_last4 = t.card.last4;
  created_at = t.created_at;
  captured_at = t.captured_at;
  canceled_at = t.canceled_at;
}

pub record ReceivableResponse : Type 0 where
  pub id : String
  pub transaction_id : String
  pub installment_no : ℤ
  pub installments : ℤ
  pub product : String
  pub brand : String
  pub gross : ℤ
  pub fee : ℤ
  pub net : ℤ
  pub net_formatted : String
  pub due_date : String
  pub status : String
  pub settlement_id : String
  pub anticipation_id : String

abbrev pub to_receivable_response : Printing → Receivable → ReceivableResponse
to_receivable_response p r = record {
  id = r.id;
  transaction_id = r.transaction_id;
  installment_no = r.installment_no;
  installments = r.installments;
  product = product_name r.product;
  brand = r.brand;
  gross = r.gross;
  fee = r.fee;
  net = r.net;
  net_formatted = money_text p r.net;
  due_date = p.date_text r.due_date;
  status = receivable_status r.status;
  settlement_id = r.settlement_id;
  anticipation_id = r.anticipation_id;
}

abbrev pub to_receivable_responses : Printing → List Receivable → List ReceivableResponse
to_receivable_responses p list = map (to_receivable_response p) list

pub record AnticipationItemResponse : Type 0 where
  pub receivable_id : String
  pub due_date : String
  pub days : ℤ
  pub net : ℤ
  pub present_value : ℤ
  pub discount : ℤ

abbrev pub to_item_response : Printing → Item → AnticipationItemResponse
to_item_response p it = record {
  receivable_id = it.receivable_id;
  due_date = p.date_text it.due_date;
  days = it.days;
  net = it.net;
  present_value = it.present_value;
  discount = it.discount;
}

pub record AnticipationResponse : Type 0 where
  pub id : String
  pub merchant_id : String
  pub status : String
  pub rate_bps_month : ℤ
  pub gross : ℤ
  pub discount : ℤ
  pub net : ℤ
  pub net_formatted : String
  pub requested_at : Time
  pub items : List AnticipationItemResponse

abbrev pub to_anticipation_response : Printing → Anticipation → AnticipationResponse
to_anticipation_response p a = record {
  id = a.id;
  merchant_id = a.merchant_id;
  status = anticipation_status a.status;
  rate_bps_month = a.rate_month;
  gross = a.gross;
  discount = a.discount;
  net = a.net;
  net_formatted = money_text p a.net;
  requested_at = a.requested_at;
  items = map (to_item_response p) a.items;
}

pub record ChargebackResponse : Type 0 where
  pub id : String
  pub transaction_id : String
  pub merchant_id : String
  pub reason_code : String
  pub amount : ℤ
  pub status : String
  pub opened_at : Time
  pub deadline : Time

abbrev pub to_chargeback_response : Chargeback → ChargebackResponse
to_chargeback_response c = record {
  id = c.id;
  transaction_id = c.transaction_id;
  merchant_id = c.merchant_id;
  reason_code = c.reason_code;
  amount = c.amount;
  status = chargeback_status c.status;
  opened_at = c.opened_at;
  deadline = c.deadline;
}
