-- ===== src/Tests/Data.antt =====
-- Concrete values for the examples: a merchant, a card, a sale and its receivables.
use adquirente.Base.{ℕ, String, none, some, [], ◌∷◌, false}
use adquirente.Base.Int.{pos}
use adquirente.Base.Texts.{Text, codes}
use adquirente.Shared.Product.{credit}
use adquirente.Shared.Time.{Time, date}
use adquirente.Merchant.{Merchant, active}
use adquirente.Merchant.Fees.{FeePlan}
use adquirente.Merchant.Accounts.{BankAccount, checking}
use adquirente.Transaction.Card.{CardInfo}
use adquirente.Transaction as Sale
use adquirente.Transaction.{Transaction, captured}
use adquirente.Receivable as Due
use adquirente.Receivable.{Receivable, Lien, new_receivable}

-- Monday, 11 March 2024.
abbrev pub monday : Time
unfolding date
monday = date 2024 3 11

abbrev pub account : BankAccount
account = record {
  bank_code = codes "001";
  branch = codes "1234";
  number = codes "567890";
  kind = checking;
}

abbrev pub plan : FeePlan
plan = record {
  debit_rate = pos 150;
  credit_one_shot = pos 300;
  credit_installments = (pos 2, pos 350) ∷ (pos 3, pos 400) ∷ [];
  anticipation_rate_month = pos 200;
}

abbrev pub shop : Merchant
shop = record {
  id = "m_1";
  document = codes "11222333000181";
  legal_name = codes "LOJA";
  mcc = codes "5411";
  status = active;
  bank_account = account;
  fee_plan = plan;
  webhook_url = codes "";
  auto_anticipation = false;
  version = pos 2;
  created_at = monday;
  updated_at = monday;
}

abbrev pub visa_pan : Text
visa_pan = codes "4111111111111111"

abbrev pub visa : CardInfo
visa = record { token = "tok_1"; brand = "VISA"; bin = codes "411111"; last4 = codes "1111" }

-- A sale of 100.00 in three instalments, captured.
abbrev pub sale : Transaction
sale = record {
  id = "tx_1";
  merchant_id = "m_1";
  amount = pos 10000;
  product = credit;
  installments = pos 3;
  card = visa;
  status = captured;
  authorization_code = "A1";
  nsu = "1";
  response_code = "00";
  created_at = monday;
  authorized_at = some monday;
  captured_at = some monday;
  canceled_at = none;
  version = pos 3;
  events = [];
}

abbrev pub pending_sale : Transaction
pending_sale = record sale {
  status = Sale.pending;
  authorized_at = none;
  captured_at = none;
  version = pos 1;
}

abbrev pub denied_sale : Transaction
denied_sale = record pending_sale { status = Sale.denied }

abbrev pub numbered : ℕ → String
numbered n = "id"

unfoldable pub due_on_monday : String → ℕ → ℕ → Receivable
unfolding new_receivable
due_on_monday id gross fee =
    new_receivable id "tx_1" "m_1" (pos 1) (pos 1) credit "VISA" (pos gross) (pos fee) monday monday

abbrev pub first_due : Receivable
unfolding due_on_monday
first_due = due_on_monday "rcv_1" 10000 400

abbrev pub advanced_due : Receivable
unfolding due_on_monday
advanced_due = record (due_on_monday "rcv_2" 5000 200) { status = Due.anticipated }

abbrev pub bank_lien : Lien
bank_lien = record {
  merchant_id = "m_1";
  due_date = monday;
  amount = pos 3000;
  creditor_name = codes "BANCO";
  creditor = account;
}
