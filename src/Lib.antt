-- ===== src/Lib.antt =====
-- A model of adquirente, the back office of a card acquirer: it takes card sales from merchants,
-- splits them into receivables with due dates, pays the merchants on those dates, and keeps the
-- life of every sale.
--
-- The program is a domain layer of pure types (internal/domain), use cases over it
-- (internal/application), and the handlers and clients around them. This library models the
-- domain layer, the storage in internal/infrastructure/postgres and gormrepo as operations on
-- tables, the use cases that register a merchant and that authorize, change, schedule, pay,
-- anticipate and dispute a sale, the HTTP handlers in front of them, and the relay and the
-- consumer that carry the events from the outbox to the use cases that schedule receivables and
-- notify merchants. A captured transaction is scheduled into receivables by the merchant's fee
-- plan and the business calendar; on a due date a settlement is built from the receivables of a
-- merchant and from the liens that creditors hold on them, and is sent to the bank.
--
-- - Shared: internal/domain/shared. Shared.Money is money.go, Shared.Calendar is calendar.go,
--   Shared.Time what the code uses of Go's `time`, Shared.Event event.go, Shared.Product
--   product.go, and Shared.Error the sentinel errors of all packages, with `errors.Is` in
--   Shared.Sentinels.
-- - Merchant: internal/domain/merchant. Merchant.Fees is fee_plan.go, Merchant.Accounts
--   bank_account.go, Merchant.Document document.go, and Merchant itself merchant.go.
-- - Transaction: internal/domain/transaction, with transaction.go and events.go in the module
--   itself and card.go in Transaction.Card.
-- - Receivable: internal/domain/receivable, with receivable.go and the event of ports.go in the
--   module itself; Receivable.Schedule and Receivable.Units are `Schedule` and `GroupUnits` of
--   schedule.go.
-- - Settlement: internal/domain/settlement/settlement.go, with `Build` in Settlement.Build.
-- - Anticipation: internal/domain/anticipation, the sale of receivables before they fall due; the
--   interface `Pricer` is a parameter, since its implementation computes with floats.
-- - Chargeback: internal/domain/chargeback, the dispute of a sale.
-- - Ledger: internal/domain/ledger, the double entries of every movement of money.
-- - Store: the tables and the services of a run, as a state (`World`), with one action for each
--   method of a repository that a use case calls: Store.Sales, Store.Dues, Store.Papers,
--   Store.Books and Store.Keys are internal/infrastructure/postgres, Store.Shops is
--   internal/infrastructure/gormrepo, and `unit_of_work` is uow.go. Store.Laws and Store.Failure
--   say what chains of actions do.
-- - Application: internal/application. Application.Lifecycle and Application.Authorization are
--   transaction/lifecycle.go and authorize.go, Application.Scheduling receivable/schedule.go,
--   Application.SettleDue settlement/settle_due.go, Application.Disputes chargeback/open.go,
--   Application.Anticipate anticipation/anticipate.go, Application.Merchants merchant/onboard.go
--   and review.go, Application.Notification notification/notify.go, and Application.Idempotency
--   internal/handler/http/middleware/idempotency.go. Application.History has the use cases as the
--   steps of one run of the system.
-- - Messaging: internal/infrastructure/kafka. Messaging.Relay is relay.go and Messaging.Consumer
--   consumer.go, with `written` for publisher.go and `is_permanent` for
--   internal/application/errors.go. The relay works on rows with keys and the mark
--   `published_at`, of which Store keeps the events.
-- - Http: internal/handler/http. Http.Answers is dto.go, Http.Replies problem.go, Http.Guards
--   middleware/auth.go and the guards of merchants.go, and Http.Sales, Http.Shops, Http.Offers
--   and Http.Dues are the handlers of transactions.go, merchants.go, anticipations.go and
--   receivables.go.
-- - Infrastructure: internal/infrastructure/registry/fake.go and bank/file_gateway.go, which
--   stand in for the services that the use cases take as parameters.
-- - Base holds what all of them share: tests, 64-bit integers, texts and maps; Tests has the
--   examples.
--
-- A struct is a record and a constant set a data type. A method that changes its receiver takes
-- it as its last argument and returns the new value with an optional error (`Outcome`); a
-- constructor returns a `Result`. A Go `int` or `int64` is an integer with 64-bit wrap-around
-- (Base.Int64), an instant is a number of nanoseconds in UTC, and a string that the code walks is
-- a list of bytes or code points. Identifiers that `NewID` draws and the time `now` are
-- arguments. An error that wraps a sentinel keeps the sentinel, and its message is not modelled.
--
-- A use case is a function on a `World`, which it returns with its result. Each statement that
-- the code sends to the database first asks a script of faults, so a connection that breaks, a
-- constraint that is violated and a commit that fails are all runs of the model; the primary
-- keys, the unique document of a merchant and the tests on the version are computed. The order
-- that a query asks for, the registry, the vault, the issuer and the bank are parameters, and
-- `calls` records what the outside was asked, which no rollback undoes. Rows keep an instant as
-- it is, save the time of change of a merchant, which gorm stamps with its own clock, and lose the
-- pending events. Units of work that lock the same rows run one after the other, so a run is a
-- sequence of whole units.
--
-- The loops of the calendar run on fuel: 400 days for a search, and 400 for each business day
-- that is counted, which is more than any run of closed days; the theorems on them show that the
-- fuel is never used up. The batches of a day run on fuel as well, with `none` for a loop that
-- goes on, since that loop need not end, and so do the rounds of the relay that follow each other
-- without a pause; a theorem shows that one more than the rows that wait is enough. All other
-- loops go over a list, or count the attempts on a message.
--
-- A request reaches a handler with what gin and the JWT library read of it, as arguments. A write
-- to a topic is described by the error that the Kafka library reports and by whether the topic
-- holds the message after it; that an acknowledged message is held is a hypothesis
-- (`IsAcknowledged`). The relay's read of its rows may break off after any number of them.
--
-- Not modelled: `url.Parse` and `strings.ToUpper`, which are parameters; the text form of rows
-- and payloads, and text for logs and messages; the queries that only sum; the gRPC services with
-- the card vault; the routes, metrics and programs.
pub mod Anticipation
pub mod Application
pub mod Base
pub mod Chargeback
pub mod Http
pub mod Infrastructure
pub mod Ledger
pub mod Merchant
pub mod Messaging
pub mod Receivable
pub mod Settlement
pub mod Shared
pub mod Store
pub mod Tests
pub mod Transaction
