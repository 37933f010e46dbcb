-- ===== src/Chargeback.antt =====
-- internal/domain/chargeback/chargeback.go: the dispute of a sale, from its opening to its end.
pub mod Life
use adquirente.Base.{
  ℕ, Bool, true, false, not, ◌&&◌, ◌||◌, String, Option, none, some, List, [], ◌∷◌, ◌++◌, ◌==◌,
  if◌then◌else◌,
}
use adquirente.Base.Int.{ℤ, pos, ltb_ℤ}
use adquirente.Base.Int64.{add64}
use adquirente.Shared.Error.{
  Error, Result, ok, err, Outcome, invalid_transition, transaction_status, amount_above_transaction,
  defense_closed,
}
use adquirente.Shared.Money.{Money, is_positive}
use adquirente.Shared.Time.{Time, add_days, after}
use adquirente.Shared.Event.{BaseEvent, new_base_event}
use adquirente.Transaction as Sale
use adquirente.Transaction.{Transaction}

pub data ChargebackStatus : Type 0 where
  opened defended accepted reversed : ChargebackStatus

abbrev pub status_code : ChargebackStatus → ℕ
status_code opened = 0
status_code defended = 1
status_code accepted = 2
status_code reversed = 3

abbrev pub status_eq : ChargebackStatus → ChargebackStatus → Bool
status_eq a b = status_code a == status_code b

-- The table `transitions`.
abbrev pub transitions : ChargebackStatus → List ChargebackStatus
transitions opened = defended ∷ accepted ∷ reversed ∷ []
transitions defended = accepted ∷ reversed ∷ []
transitions accepted = []
transitions reversed = []

pub record ChargebackOpened : Type 0 where
  pub base : BaseEvent
  pub chargeback_id : String
  pub transaction_id : String
  pub merchant_id : String
  pub amount : Money
  pub reason_code : String
  pub deadline : Time

pub record ChargebackResolved : Type 0 where
  pub base : BaseEvent
  pub chargeback_id : String
  pub transaction_id : String
  pub merchant_id : String
  pub amount : Money
  pub outcome : ChargebackStatus

pub data ChargebackEvent : Type 0 where
  chargeback_opened : ChargebackOpened → ChargebackEvent
  chargeback_resolved : ChargebackResolved → ChargebackEvent

pub record Chargeback : Type 0 where
  pub id : String
  pub transaction_id : String
  pub merchant_id : String
  pub reason_code : String
  pub amount : Money
  pub status : ChargebackStatus
  pub opened_at : Time
  pub deadline : Time
  pub resolved_at : Option Time
  pub version : ℤ
  pub events : List ChargebackEvent

abbrev pub defense_days : ℕ
defense_days = 10

-- The chargeback that `Open` makes of a sale.
abbrev pub opened_for : String → String → Transaction → String → Money → Time → Chargeback
opened_for id event_id tx reason_code amount now = record {
  id = id;
  transaction_id = tx.id;
  merchant_id = tx.merchant_id;
  reason_code = reason_code;
  amount = amount;
  status = opened;
  opened_at = now;
  deadline = add_days now defense_days;
  resolved_at = none;
  version = pos 1;
  events =
      chargeback_opened (record {
        base = new_base_event event_id "chargeback.opened" id now;
        chargeback_id = id;
        transaction_id = tx.id;
        merchant_id = tx.merchant_id;
        amount = amount;
        reason_code = reason_code;
        deadline = add_days now defense_days;
      })
      ∷ [];
}

-- After the call of `tx.Chargeback`.
abbrev pub open_after :
    String → String → String → Money → Time → Outcome Transaction → Transaction × Result Chargeback
open_after id event_id reason_code amount now (tx, some e) = (tx, err e)
open_after id event_id reason_code amount now (tx, none) =
    (tx, ok (opened_for id event_id tx reason_code amount now))

-- `Open`: the transaction, which the code changes in place, and the result. The identifiers are
-- those of the chargeback, of its event and of the transaction's event.
unfoldable pub open_chargeback :
    String → String → String → Transaction → String → Money → Time → Transaction × Result Chargeback
open_chargeback id event_id tx_event_id tx reason_code amount now =
    if not (Sale.status_eq tx.status Sale.captured) && not (Sale.status_eq tx.status Sale.settled)
    then (tx, err transaction_status)
    else if not (is_positive amount) || ltb_ℤ tx.amount amount
    then (tx, err amount_above_transaction)
    else open_after id event_id reason_code amount now
        (Sale.chargeback tx_event_id reason_code now tx)

-- The loop of `transition` over the statuses that the table allows.
unfoldable pub search_table :
    ChargebackStatus → List ChargebackStatus → Chargeback → Outcome Chargeback
search_table to [] c = (c, some invalid_transition)
search_table to (next ∷ rest) c =
    if status_eq next to
    then (record c { status = to; version = add64 c.version (pos 1) }, none)
    else search_table to rest c

unfoldable pub transition : ChargebackStatus → Chargeback → Outcome Chargeback
transition to c = search_table to (transitions c.status) c

unfoldable pub defend : Time → Chargeback → Outcome Chargeback
defend now c = if after now c.deadline then (c, some defense_closed) else transition defended c

unfoldable pub resolve : String → ChargebackStatus → Time → Chargeback → Outcome Chargeback
resolve event_id to now c = Sale.and_then (transition to c) λ d. record d {
  resolved_at = some now;
  events =
      d.events
      ++ chargeback_resolved (record {
        base = new_base_event event_id "chargeback.resolved" d.id now;
        chargeback_id = d.id;
        transaction_id = d.transaction_id;
        merchant_id = d.merchant_id;
        amount = d.amount;
        outcome = to;
      })
        ∷ [];
}

abbrev pub accept : String → Time → Chargeback → Outcome Chargeback
accept event_id now c = resolve event_id accepted now c

abbrev pub reverse : String → Time → Chargeback → Outcome Chargeback
reverse event_id now c = resolve event_id reversed now c

abbrev pub pull_events : Chargeback → List ChargebackEvent × Chargeback
pull_events c = (c.events, record c { events = [] })
