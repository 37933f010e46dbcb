-- ===== src/Store.antt =====
-- The database behind the use cases, and the unit of work of internal/infrastructure/postgres/uow.go.
-- Each statement that the code sends to the database asks a script of faults first: an entry `some e`
-- is the error that the driver reports for that statement, whatever its cause, and `none`, or the
-- end of the script, is a statement that runs. A statement that fails changes nothing. Two units of
-- work that lock the same rows run one after the other, so a run is a sequence of whole units.
pub mod Laws
pub mod Failure
pub mod Tables
pub mod Rows
pub mod Papers
pub mod Sales
pub mod Dues
pub mod Books
pub mod Shops
pub mod Keys
use adquirente.Base.{ℕ, String, Option, none, some, List, [], ◌∷◌, ◌++◌}
use adquirente.Base.Texts.{Text}
use adquirente.Shared.Error.{Error, Result, ok, err, Outcome}
use adquirente.Shared.Time.{Time}
use adquirente.Merchant.{Merchant}
use adquirente.Transaction.{Transaction, TransactionEvent}
use adquirente.Transaction.Requests.{AuthorizationRequest}
use adquirente.Receivable.{Receivable, ReceivablesScheduled}
use adquirente.Receivable.Units.{ReceivableUnit}
use adquirente.Settlement.{Settlement, SettlementEvent}
use adquirente.Anticipation.{Anticipation, AnticipationConfirmed}
use adquirente.Chargeback.{Chargeback, ChargebackEvent}
use adquirente.Ledger.{Entry}

-- An event in the outbox; its payload is the event itself, written as JSON.
pub data OutboxEvent : Type 0 where
  transaction_event : TransactionEvent → OutboxEvent
  settlement_event : SettlementEvent → OutboxEvent
  scheduled_event : ReceivablesScheduled → OutboxEvent
  anticipation_event : AnticipationConfirmed → OutboxEvent
  chargeback_event : ChargebackEvent → OutboxEvent

-- A row of `idempotency_keys`: the response is there once the request has one.
pub record KeyRow : Type 0 where
  pub request_hash : String
  pub expires_at : Time
  pub response : Option (ℕ × String)

-- The tables, each with its primary key first. A row is the domain object without its events.
pub record Database : Type 0 where
  pub merchants : List (String × Merchant)
  pub transactions : List (String × Transaction)
  pub receivables : List (String × Receivable)
  pub settlements : List (String × Settlement)
  pub anticipations : List (String × Anticipation)
  pub chargebacks : List (String × Chargeback)
  pub ledger_entries : List Entry
  pub outbox : List OutboxEvent
  pub processed_events : List (String × String)
  pub idempotency_keys : List ((String × String) × KeyRow)

-- What the code asks of services outside the database, in order: no rollback undoes it.
pub data Call : Type 0 where
  authorization_asked : AuthorizationRequest → Call
  reversal_asked : (transaction_id : String) → Call
  payment_sent : Settlement → Call
  units_registered : List ReceivableUnit → Call
  ownership_transferred : (receivable_ids : List String) → (new_owner : String) → Call
  webhook_posted : (url : Text) → (headers : List (String × String)) → Call

-- `nsu` is the sequence `nsu_seq`, which a rollback does not turn back.
pub record World : Type 0 where
  pub database : Database
  pub faults : List (Option Error)
  pub nsu : ℕ
  pub calls : List Call

abbrev pub Action : Type 0 → Type 0
Action A = World → Result A × World

abbrev pub pure : {A : Type 0} → A → Action A
pure a w = (ok a, w)

abbrev pub raise : {A : Type 0} → Error → Action A
raise e w = (err e, w)

-- A result that the code has already, as the next step.
abbrev pub lift : {A : Type 0} → Result A → Action A
lift r w = (r, w)

-- `if err := x.Method(…); err != nil { return err }`
abbrev pub applied : {S : Type 0} → Outcome S → Action S
applied (s, none) = pure s
applied (s, some e) = raise e

abbrev pub continue_with : {A B : Type 0} → (A → Action B) → Result A × World → Result B × World
continue_with next (ok a, w) = next a w
continue_with next (err e, w) = (err e, w)

-- `if err != nil { return err }`, and the rest of the function.
infixl 5 ◌>>=◌ ◌>>◌
abbrev pub ◌>>=◌ : {A B : Type 0} → Action A → (A → Action B) → Action B
◌>>=◌ first next w = continue_with next (first w)

abbrev pub ◌>>◌ : {A B : Type 0} → Action A → Action B → Action B
first >> next = first >>= λ _. next

abbrev pub call : Call → Action (Unit {0})
call c w = (ok tt, record w { calls = w.calls ++ c ∷ [] })

-- A statement on the tables, once the driver accepts it.
abbrev pub place : {A : Type 0} → Result (A × Database) → World → Result A × World
place (ok (a, db)) w = (ok a, record w { database = db })
place (err e) w = (err e, w)

abbrev pub answered :
    {A : Type 0} → Result (A × Database) → World → List (Option Error) → Result A × World
answered r w [] = place r w
answered r w (none ∷ faults) = place r (record w { faults = faults })
answered r w (some e ∷ faults) = (err e, record w { faults = faults })

unfoldable pub statement : {A : Type 0} → (Database → Result (A × Database)) → Action A
statement f w = answered (f w.database) w w.faults

-- `BEGIN` and `COMMIT`.
abbrev pub begin : Action (Unit {0})
begin = statement λ db. ok (tt, db)

abbrev pub commit : Action (Unit {0})
commit = statement λ db. ok (tt, db)

-- The deferred `Rollback`, which does nothing after a commit.
abbrev pub roll_back : {A : Type 0} → Database → Result A × World → Result A × World
roll_back db (ok a, w) = (ok a, w)
roll_back db (err e, w) = (err e, record w { database = db })

-- `UnitOfWork.Do`: all of it, or nothing.
unfoldable pub unit_of_work : {A : Type 0} → Action A → Action A
unit_of_work fn w = roll_back w.database ((begin >>= λ _. fn >>= λ a. commit >>= λ _. pure a) w)
