-- ===== src/Store/Books.antt =====
-- The repositories that only append: outbox_repository.go and ledger_repository.go of
-- internal/infrastructure/postgres.
pub mod Effects
use adquirente.Base.{
  ℕ, Bool, true, false, not, ◌&&◌, String, str_eq, Option, none, some, List, [], ◌∷◌, ◌++◌,
  if◌then◌else◌,
}
use adquirente.Shared.Error.{Result, ok, err, external}
use adquirente.Ledger.{Entry, balanced}
use adquirente.Store.{Database, World, Action, OutboxEvent, statement, pure, raise, ◌>>=◌}
use adquirente.Store.Tables.{selected}

-- `OutboxRepository.Append`: one `INSERT` for each event.
unfoldable pub append_events : List OutboxEvent → Action (Unit {0})
append_events [] = pure tt
append_events (ev ∷ evs) =
    statement (λ db. ok (tt, record db { outbox = db.outbox ++ ev ∷ [] })) >>= λ _.
    append_events evs

abbrev pub pair_eq : String × String → String × String → Bool
pair_eq a b = str_eq a.0 b.0 && str_eq a.1 b.1

abbrev pub is_processed : String × String → List (String × String) → Bool
is_processed p [] = false
is_processed p (q ∷ qs) = if pair_eq q p then true else is_processed p qs

-- `INSERT … ON CONFLICT DO NOTHING`: whether a row was inserted.
abbrev pub mark : String × String → Database → Bool × Database
mark p db =
    if is_processed p db.processed_events
    then (false, db)
    else (true, record db { processed_events = db.processed_events ++ p ∷ [] })

unfoldable pub mark_if_new : String → String → Action Bool
mark_if_new consumer event_id = statement λ db. ok (mark (consumer, event_id) db)

-- The loop of `LedgerRepository.Append`.
unfoldable pub insert_entries : List Entry → Action (Unit {0})
insert_entries [] = pure tt
insert_entries (e ∷ es) =
    statement (λ db. ok (tt, record db { ledger_entries = db.ledger_entries ++ e ∷ [] })) >>= λ _.
    insert_entries es

unfoldable pub append_entries : List Entry → Action (Unit {0})
append_entries es =
    if not (balanced es) then raise (external "unbalanced entries") else insert_entries es
