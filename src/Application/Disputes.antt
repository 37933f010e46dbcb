-- ===== src/Application/Disputes.antt =====
-- internal/application/chargeback/open.go: a dispute of a sale, and what it does to the sale's
-- receivables and to the ledger. Entry identifiers come from `new_id`, one stock for each receivable.
pub mod Effect
pub mod Atomic
use adquirente.Base.{
  ℕ, suc, Bool, true, false, String, Option, none, some, List, [], ◌∷◌, ◌++◌, map, if◌then◌else◌,
}
use adquirente.Base.Texts.{is_empty}
use adquirente.Shared.Error.{Error, Result, ok, err, Outcome}
use adquirente.Shared.Money.{Money}
use adquirente.Shared.Time.{Time}
use adquirente.Transaction.{Transaction}
use adquirente.Receivable as Due
use adquirente.Receivable.{Receivable, chargeback}
use adquirente.Chargeback.{Chargeback, open_chargeback, pull_events}
use adquirente.Ledger.{Entry, for_chargeback, for_chargeback_anticipated}
use adquirente.Store.{
  World, Action, OutboxEvent, chargeback_event, pure, raise, lift, ◌>>=◌, unit_of_work,
}
use adquirente.Store.Sales.{find, update}
use adquirente.Store.Dues.{list_by_transaction, update_all}
use adquirente.Store.Papers.{create_chargeback}
use adquirente.Store.Books.{append_events, append_entries}
use adquirente.Application.Lifecycle.{pulled}

-- The switch on a receivable's status: the entries to book, or `none` to leave it as it is.
abbrev pub reversed_entries : (ℕ → String) → Due.Status → Receivable → Time → Option (List Entry)
reversed_entries new_id Due.scheduled r now = some (for_chargeback new_id r now)
reversed_entries new_id Due.anticipated r now = some (for_chargeback_anticipated new_id r now)
reversed_entries new_id _ r now = none

-- One receivable: its entries, and the call of `r.Chargeback`.
abbrev pub dispute_one :
    List Entry
    → Outcome Receivable
    → Result (List Receivable × List Entry)
    → Result (List Receivable × List Entry)
dispute_one es (r, some e) rest = err e
dispute_one es (r, none) (err e) = err e
dispute_one es (r, none) (ok (changed, entries)) = ok (r ∷ changed, es ++ entries)

abbrev pub dispute_next :
    Option (List Entry)
    → Outcome Receivable
    → Result (List Receivable × List Entry)
    → Result (List Receivable × List Entry)
dispute_next none o rest = rest
dispute_next (some es) o rest = dispute_one es o rest

-- The loop over the receivables of the sale, from number k on.
unfoldable pub dispute_all :
    (ℕ → ℕ → String) → ℕ → List Receivable → Time → Result (List Receivable × List Entry)
dispute_all new_id k [] now = ok ([], [])
dispute_all new_id k (r ∷ rs) now =
    dispute_next (reversed_entries (new_id k) r.status r now) (chargeback now r)
      (dispute_all new_id (suc k) rs now)

-- `if len(changed) > 0`
abbrev pub book_changes : List Receivable × List Entry → Action (Unit {0})
book_changes ([], entries) = pure tt
book_changes (r ∷ rs, entries) = update_all (r ∷ rs) >>= λ _. append_entries entries

-- The identifiers that a run draws, and the order of `ListByTransaction`.
pub record Draws : Type 0 where
  pub chargeback_id : String
  pub event_id : String
  pub sale_event_id : String
  pub entry_id : ℕ → ℕ → String
  pub by_installment : List Receivable → List Receivable

-- From the opened dispute on.
unfoldable pub record_dispute : Draws → Time → Transaction → Chargeback → Action Chargeback
record_dispute d now tx cb = update tx >>= λ _. create_chargeback cb >>= λ _.
    list_by_transaction d.by_installment tx.id >>= λ list.
    lift (dispute_all d.entry_id 0 list now) >>= λ changes. book_changes changes >>= λ _.
    append_events (pulled tx ++ map chargeback_event (pull_events cb).0) >>= λ _.
    pure (pull_events cb).1

abbrev pub after_open : Draws → Time → Transaction × Result Chargeback → Action Chargeback
after_open d now (tx, err e) = raise e
after_open d now (tx, ok cb) = record_dispute d now tx cb

unfoldable pub execute : Draws → String → String → String → Money → Time → Action Chargeback
execute d merchant_id transaction_id reason_code amount now = unit_of_work (
    find merchant_id transaction_id >>= λ tx.
    after_open d now
      (open_chargeback d.chargeback_id d.event_id d.sale_event_id tx reason_code amount now))
