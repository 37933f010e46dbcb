-- ===== src/Application/Lifecycle.antt =====
-- internal/application/transaction/lifecycle.go: a capture or a cancellation of a stored transaction.
pub mod Effect
use adquirente.Base.{ℕ, String, Option, none, some, List, map}
use adquirente.Shared.Error.{Error, Result, ok, err, Outcome}
use adquirente.Shared.Time.{Time}
use adquirente.Transaction.{Transaction, TransactionEvent, capture, cancel, pull_events}
use adquirente.Store.{
  World, Action, OutboxEvent, transaction_event, applied, pure, ◌>>=◌, unit_of_work,
}
use adquirente.Store.Sales
use adquirente.Store.Sales.{find, update}
use adquirente.Store.Books.{append_events}

-- The events that a transaction pulls, for the outbox.
abbrev pub pulled : Transaction → List OutboxEvent
pulled t = map transaction_event (pull_events t).0

-- The end of the function that `change` gives to the unit of work.
unfoldable pub save : Transaction → Action Transaction
save t = update t >>= λ _. append_events (pulled t) >>= λ _. pure (pull_events t).1

-- `apply` is the method that the caller picks.
unfoldable pub change : String → String → (Transaction → Outcome Transaction) → Action Transaction
change merchant_id id apply =
    unit_of_work (find merchant_id id >>= λ tx. applied (apply tx) >>= save)

-- The event identifier that `NewID("evt")` draws is an argument.
abbrev pub capture_sale : String → Time → String → String → Action Transaction
capture_sale event_id now merchant_id id = change merchant_id id (capture event_id now)

abbrev pub cancel_sale : String → Time → String → String → Action Transaction
cancel_sale event_id now merchant_id id = change merchant_id id (cancel event_id now)

-- `Get.Execute`
abbrev pub get_sale : String → String → Action Transaction
get_sale merchant_id id = find merchant_id id
