-- ===== src/Receivable.antt =====
-- internal/domain/receivable/receivable.go: one instalment that the merchant is owed, as a state
-- machine, with what the registry and the event of ports.go say of it.
pub mod Graph
pub mod Schedule
pub mod Units
use adquirente.Base.{
  ℕ, Bool, true, false, not, ◌&&◌, String, Option, none, some, List, [], ◌∷◌, ◌==◌, if◌then◌else◌,
  length,
}
use adquirente.Base.Int.{ℤ, pos}
use adquirente.Base.Int64.{add64, sub64}
use adquirente.Base.Texts.{Text}
use adquirente.Shared.Error.{Error, Outcome, invalid_transition}
use adquirente.Shared.Money.{Money}
use adquirente.Shared.Product.{Product}
use adquirente.Shared.Time.{Time, date_only, after, before, duration, whole_days}
use adquirente.Shared.Event.{BaseEvent, new_base_event}
use adquirente.Merchant.Accounts.{BankAccount}

pub data Status : Type 0 where
  scheduled anticipated settled canceled chargebacked : Status

abbrev pub status_code : Status → ℕ
status_code scheduled = 0
status_code anticipated = 1
status_code settled = 2
status_code canceled = 3
status_code chargebacked = 4

abbrev pub status_eq : Status → Status → Bool
status_eq a b = status_code a == status_code b

-- The table `transitions`.
abbrev pub transitions : Status → List Status
transitions scheduled = anticipated ∷ settled ∷ canceled ∷ chargebacked ∷ []
transitions anticipated = settled ∷ chargebacked ∷ []
transitions settled = []
transitions canceled = []
transitions chargebacked = []

pub record Receivable : Type 0 where
  pub id : String
  pub transaction_id : String
  pub merchant_id : String
  pub installment_no : ℤ
  pub installments : ℤ
  pub product : Product
  pub brand : String
  pub gross : Money
  pub fee : Money
  pub net : Money
  pub due_date : Time
  pub status : Status
  pub settlement_id : String
  pub anticipation_id : String
  pub version : ℤ
  pub created_at : Time
  pub updated_at : Time

-- The identifier that `NewID("rcv")` draws is the first argument.
unfoldable pub new_receivable :
    String → String → String → ℤ → ℤ → Product → String → Money → Money → Time → Time → Receivable
new_receivable id transaction_id merchant_id k n product brand gross fee due now = record {
  id = id;
  transaction_id = transaction_id;
  merchant_id = merchant_id;
  installment_no = k;
  installments = n;
  product = product;
  brand = brand;
  gross = gross;
  fee = fee;
  net = sub64 gross fee;
  due_date = date_only due;
  status = scheduled;
  settlement_id = "";
  anticipation_id = "";
  version = pos 1;
  created_at = now;
  updated_at = now;
}

-- The loop of `transition` over the statuses that the table allows.
search_table : Status → Time → List Status → Receivable → Outcome Receivable
search_table to now [] r = (r, some invalid_transition)
search_table to now (next ∷ rest) r =
    if status_eq next to
    then (record r { status = to; version = add64 r.version (pos 1); updated_at = now }, none)
    else search_table to now rest r

unfoldable pub transition : Status → Time → Receivable → Outcome Receivable
unfolding search_table
transition to now r = search_table to now (transitions r.status) r

abbrev pub is_anticipable : Time → Receivable → Bool
is_anticipable today r = status_eq r.status scheduled && after r.due_date (date_only today)

abbrev pub days_until_due : Time → Receivable → ℤ
days_until_due today r = whole_days (duration r.due_date (date_only today))

abbrev and_then : Outcome Receivable → (Receivable → Receivable) → Outcome Receivable
and_then (r, none) f = (f r, none)
and_then (r, some e) f = (r, some e)

unfoldable pub anticipate : String → Time → Receivable → Outcome Receivable
unfolding transition
anticipate anticipation_id now r =
    and_then (transition anticipated now r) λ s. record s { anticipation_id = anticipation_id }

unfoldable pub settle : String → Time → Receivable → Outcome Receivable
unfolding transition
settle settlement_id now r =
    and_then (transition settled now r) λ s. record s { settlement_id = settlement_id }

unfoldable pub cancel : Time → Receivable → Outcome Receivable
unfolding transition
cancel now r = transition canceled now r

unfoldable pub chargeback : Time → Receivable → Outcome Receivable
unfolding transition
chargeback now r = transition chargebacked now r

-- ports.go: a lien that the registry reports on a day's receivables; the name is a list of code
-- points.
pub record Lien : Type 0 where
  pub merchant_id : String
  pub due_date : Time
  pub amount : Money
  pub creditor_name : Text
  pub creditor : BankAccount

pub record ReceivablesScheduled : Type 0 where
  pub base : BaseEvent
  pub transaction_id : String
  pub merchant_id : String
  pub count : ℕ
  pub gross_total : Money
  pub net_total : Money
  pub first_due_date : Time
  pub last_due_date : Time

-- The loop of `NewReceivablesScheduled`.
tally : ReceivablesScheduled → List Receivable → ReceivablesScheduled
tally ev [] = ev
tally ev (r ∷ rs) =
    tally
      (record ev {
        gross_total = add64 ev.gross_total r.gross;
        net_total = add64 ev.net_total r.net;
        first_due_date =
            if before r.due_date ev.first_due_date then r.due_date else ev.first_due_date;
        last_due_date = if after r.due_date ev.last_due_date then r.due_date else ev.last_due_date;
      })
      rs

-- `none` is the panic on an empty list, whose first element the code reads.
unfoldable pub new_receivables_scheduled :
    String → List Receivable → Time → Option ReceivablesScheduled
unfolding tally
new_receivables_scheduled event_id [] now = none
new_receivables_scheduled event_id (r ∷ rs) now = some (
    tally
      (record {
        base = new_base_event event_id "receivable.scheduled" r.transaction_id now;
        transaction_id = r.transaction_id;
        merchant_id = r.merchant_id;
        count = length (r ∷ rs);
        gross_total = pos 0;
        net_total = pos 0;
        first_due_date = r.due_date;
        last_due_date = r.due_date;
      })
      (r ∷ rs))
