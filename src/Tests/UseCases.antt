-- ===== src/Tests/UseCases.antt =====
-- Examples for the use cases, on a database with a merchant, a sale and two receivables.
use adquirente.Base.{refl, none, some, List, [], ◌∷◌, All}
use adquirente.Base.Int.{pos}
use adquirente.Base.Texts.{codes}
use adquirente.Shared.Error.{ok}
use adquirente.Shared.Calendar.{brazil_calendar}
use adquirente.Transaction.{TransactionCanceled, cancel}
use adquirente.Receivable.{Receivable}
use adquirente.Ledger.Balance.{NetAdds}
use adquirente.Store.{Database, World}
use adquirente.Store.Laws.{AllOrNothing}
use adquirente.Application.Lifecycle.{change}
use adquirente.Application.Lifecycle.Effect.{Changed, change-IsAtomic}
use adquirente.Application.Authorization as Authorization
use adquirente.Application.Authorization.Checks.{
  Setting, AuthorizeCommand, deadline_exceeded, max_amount_rule,
}
use adquirente.Application.Authorization.Saga.{Authorizes, execute-Authorizes}
use adquirente.Application.Disputes as Dispute
use adquirente.Application.Disputes.{Draws, dispute_all}
use adquirente.Application.Disputes.Atomic.{Disputed, execute-IsAtomic}
use adquirente.Application.Scheduling.{Scheduler}
use adquirente.Tests.Data.{
  shop, sale, monday, visa_pan, numbered, first_due, advanced_due, due_on_monday,
}

abbrev tables : Database
tables = record {
  merchants = ("m_1", shop) ∷ [];
  transactions = ("tx_1", sale) ∷ [];
  receivables = ("rcv_1", first_due) ∷ ("rcv_2", advanced_due) ∷ [];
  settlements = [];
  anticipations = [];
  chargebacks = [];
  ledger_entries = [];
  outbox = [];
  processed_events = [];
  idempotency_keys = [];
}

abbrev pub start : World
start = record { database = tables; faults = []; nsu = 0; calls = [] }

change-IsAtomic_example :
    AllOrNothing
      (Changed "m_1" "tx_1" (cancel "ev_9" monday))
      start
      (change "m_1" "tx_1" (cancel "ev_9" monday) start)
change-IsAtomic_example = change-IsAtomic "m_1" "tx_1" (cancel "ev_9" monday) start

-- The issuer does not answer in time.
abbrev late_issuer : Setting
late_issuer = record {
  vault = λ token. ok (record { pan = visa_pan; expiry = codes "12/30" });
  issuer = λ req. deadline_exceeded;
  rules = max_amount_rule (pos 1000000) ∷ [];
  nsu_text = numbered;
  now = monday;
  later = monday;
  transaction_id = "tx_2";
  event_id = "ev_8";
}

abbrev command : AuthorizeCommand
command = record {
  merchant_id = "m_1";
  amount = pos 5000;
  product = "CREDIT";
  installments = pos 1;
  card_token = "tok_1";
}

execute-Authorizes_example :
    AllOrNothing
      (Authorizes late_issuer command)
      start
      (Authorization.execute late_issuer command start)
execute-Authorizes_example = execute-Authorizes late_issuer command start

abbrev pub dispute_draws : Draws
dispute_draws = record {
  chargeback_id = "cb_1";
  event_id = "ev_6";
  sale_event_id = "ev_7";
  entry_id = λ k. numbered;
  by_installment = λ rs. rs;
}

execute-IsAtomic_example :
    AllOrNothing
      (Disputed dispute_draws "m_1" "tx_1" "10.4" (pos 10000) monday)
      start
      (Dispute.execute dispute_draws "m_1" "tx_1" "10.4" (pos 10000) monday start)
execute-IsAtomic_example =
    execute-IsAtomic dispute_draws "m_1" "tx_1" "10.4" (pos 10000) monday start

abbrev disputed_dues : List Receivable
disputed_dues = first_due ∷ advanced_due ∷ []

disputed_dues-NetAdds : All NetAdds disputed_dues
unfolding due_on_monday
disputed_dues-NetAdds = (refl, (refl, tt))

abbrev canceled_sale : TransactionCanceled
canceled_sale = record {
  base = record {
    id = "ev_5";
    event_type = "transaction.canceled";
    occurred_at = monday;
    aggregate = "tx_1";
    version = 1;
  };
  merchant_id = "m_1";
  amount = pos 10000;
}

-- Every payload is the cancellation of the sale.
abbrev pub scheduler : Scheduler (Unit {0})
scheduler = record {
  calendar = brazil_calendar;
  now = monday;
  receivable_id = numbered;
  entry_id = numbered;
  reversal_id = λ k. numbered;
  event_id = "ev_4";
  by_installment = λ rs. rs;
  captured_of = λ payload. none;
  canceled_of = λ payload. some canceled_sale;
}
