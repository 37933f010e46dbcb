-- ===== src/Settlement.antt =====
-- internal/domain/settlement/settlement.go: a day's payment to one merchant, built from what falls
-- due and from the liens on it, and its life at the bank.
pub mod Build
pub mod Graph
use adquirente.Base.{
  ℕ, suc, Bool, true, false, not, ◌&&◌, ◌||◌, String, str_eq, Option, none, some, List, [], ◌∷◌,
  ◌++◌, ◌==◌, if◌then◌else◌,
}
use adquirente.Base.Int.{ℤ, pos, ltb_ℤ, eqb_ℤ}
use adquirente.Base.Int64.{add64, sub64}
use adquirente.Base.Texts.{Text}
use adquirente.Shared.Error.{
  Error, Result, ok, err, ◌>>=◌, Outcome, invalid_transition, nothing_to_settle, wrong_merchant,
  wrong_day, wrong_status,
}
use adquirente.Shared.Money.{Money}
use adquirente.Shared.Time.{Time, date_only}
use adquirente.Shared.Event.{BaseEvent, new_base_event}
use adquirente.Merchant.{Merchant}
use adquirente.Merchant.Accounts.{BankAccount}

pub data SettlementStatus : Type 0 where
  pending sent confirmed failed : SettlementStatus

abbrev pub status_code : SettlementStatus → ℕ
status_code pending = 0
status_code sent = 1
status_code confirmed = 2
status_code failed = 3

abbrev pub status_eq : SettlementStatus → SettlementStatus → Bool
status_eq a b = status_code a == status_code b

pub data OrderKind : Type 0 where
  to_merchant_order to_creditor_order : OrderKind

-- `beneficiary` is a list of code points.
pub record Order : Type 0 where
  pub id : String
  pub kind : OrderKind
  pub beneficiary : Text
  pub bank_account : BankAccount
  pub amount : Money

pub record SettlementCompleted : Type 0 where
  pub base : BaseEvent
  pub settlement_id : String
  pub merchant_id : String
  pub date : Time
  pub total : Money
  pub to_merchant : Money
  pub to_creditors : Money
  pub retained : Money
  pub receivable_ids : List String

pub record SettlementFailed : Type 0 where
  pub base : BaseEvent
  pub settlement_id : String
  pub merchant_id : String
  pub date : Time
  pub reason : String
  pub receivable_ids : List String

pub data SettlementEvent : Type 0 where
  settlement_completed : SettlementCompleted → SettlementEvent
  settlement_failed : SettlementFailed → SettlementEvent

pub record Settlement : Type 0 where
  pub id : String
  pub date : Time
  pub merchant_id : String
  pub total : Money
  pub to_merchant : Money
  pub to_creditors : Money
  pub retained : Money
  pub orders : List Order
  pub receivable_ids : List String
  pub status : SettlementStatus
  pub external_ref : String
  pub failure_reason : String
  pub created_at : Time
  pub updated_at : Time
  pub version : ℤ
  pub events : List SettlementEvent

unfoldable pub mark_sent : String → Time → Settlement → Outcome Settlement
mark_sent external_ref now s =
    if not (status_eq s.status pending) then (s, some invalid_transition) else (
      record s {
        status = sent;
        external_ref = external_ref;
        updated_at = now;
        version = add64 s.version (pos 1);
      },
      none,
    )

unfoldable pub mark_confirmed : String → Time → Settlement → Outcome Settlement
mark_confirmed event_id now s =
    if not (status_eq s.status sent) then (s, some invalid_transition) else (
      record s {
        status = confirmed;
        updated_at = now;
        version = add64 s.version (pos 1);
        events =
            s.events
            ++ settlement_completed (record {
              base = new_base_event event_id "settlement.completed" s.id now;
              settlement_id = s.id;
              merchant_id = s.merchant_id;
              date = s.date;
              total = s.total;
              to_merchant = s.to_merchant;
              to_creditors = s.to_creditors;
              retained = s.retained;
              receivable_ids = s.receivable_ids;
            })
              ∷ [];
      },
      none,
    )

unfoldable pub mark_failed : String → String → Time → Settlement → Outcome Settlement
mark_failed event_id reason now s =
    if not (status_eq s.status sent) && not (status_eq s.status pending)
    then (s, some invalid_transition)
    else (
      record s {
        status = failed;
        failure_reason = reason;
        updated_at = now;
        version = add64 s.version (pos 1);
        events =
            s.events
            ++ settlement_failed (record {
              base = new_base_event event_id "settlement.failed" s.id now;
              settlement_id = s.id;
              merchant_id = s.merchant_id;
              date = s.date;
              reason = reason;
              receivable_ids = s.receivable_ids;
            })
              ∷ [];
      },
      none,
    )

abbrev pub pull_events : Settlement → List SettlementEvent × Settlement
pull_events s = (s.events, record s { events = [] })
