-- ===== src/Store/Sales.antt =====
-- internal/infrastructure/postgres/transaction_repository.go.
pub mod Effects
use adquirente.Base.{ℕ, suc, ◌+◌, Bool, String, str_eq, Option, none, some, List, [], ◌∷◌}
use adquirente.Base.Int.{ltb_ℤ}
use adquirente.Shared.Error.{Result, ok, err}
use adquirente.Transaction.{Transaction}
use adquirente.Store.{Database, World, Action, statement, pure, continue_with}
use adquirente.Store.Rows.{insert_in, update_in, find_in}

-- The row of a transaction, and what `Restore` makes of it: all but the events.
abbrev pub restored : Transaction → Transaction
restored t = record t { events = [] }

abbrev pub transactions_of : Database → List (String × Transaction)
transactions_of db = db.transactions

abbrev pub with_transactions : List (String × Transaction) → Database → Database
with_transactions rows db = record db { transactions = rows }

abbrev pub create : Transaction → Action (Unit {0})
create t = insert_in transactions_of with_transactions t.id (restored t)

-- `FindByID` and `FindByIDForUpdate`; the lock keeps other units of work away from the row.
abbrev pub find : String → String → Action Transaction
find merchant_id id =
    find_in transactions_of with_transactions id (λ t. str_eq t.merchant_id merchant_id)

-- The columns that `Update` sets.
abbrev pub set_columns : Transaction → Transaction → Transaction
set_columns t old = record old {
  status = t.status;
  authorization_code = t.authorization_code;
  nsu = t.nsu;
  response_code = t.response_code;
  authorized_at = t.authorized_at;
  captured_at = t.captured_at;
  canceled_at = t.canceled_at;
  version = t.version;
}

abbrev pub update : Transaction → Action (Unit {0})
update t =
    update_in transactions_of with_transactions t.id (λ old. ltb_ℤ old.version t.version)
      (set_columns t)

-- `NSUGenerator.Next`, once the driver accepts it: `text_of` prints the number in twelve digits. No
-- rollback gives the number back.
abbrev pub counted : (ℕ → String) → Result (Unit {0}) × World → Result String × World
counted text_of (ok u, w) = (ok (text_of (suc w.nsu)), record w { nsu = suc w.nsu })
counted text_of (err e, w) = (err e, w)

unfoldable pub next_nsu : (ℕ → String) → Action String
next_nsu text_of w = counted text_of (statement (λ db. ok (tt, db)) w)
