-- ===== src/Application/Disputes/Atomic.antt =====
-- The opening of a dispute is one change of the tables, or none.
use mathlib.Core.Path.{subst}
use adquirente.Base.{◌≡◌, refl, sym, ap, ◌∙◌, true, String, str_eq, some, List, [], ◌∷◌, ◌++◌, map}
use adquirente.Base.Assoc.{lookup, insert, string_eq}
use adquirente.Shared.Error.{Result, ok, err}
use adquirente.Shared.Money.{Money}
use adquirente.Shared.Time.{Time}
use adquirente.Transaction.{Transaction}
use adquirente.Receivable.{Receivable}
use adquirente.Chargeback.{Chargeback, open_chargeback, pull_events}
use adquirente.Ledger.{Entry, balanced, balanced_from}
use adquirente.Store.{Database, World, chargeback_event}
use adquirente.Store.Laws.{
  SameRest, SameRest-trans, after_ok, lifted_ok, finish, in_unit_of_work, unit_of_work-err,
  AllOrNothing, all_or_nothing,
}
use adquirente.Store.Rows.{insert_in-ok}
use adquirente.Store.Sales.{find, update, set_columns, with_transactions}
use adquirente.Store.Sales.Effects.{find-ok, update-ok}
use adquirente.Store.Dues.{list_by_transaction, update_all, where_rows, with_receivables}
use adquirente.Store.Dues.Effects.{UpdatedAll, update_all-ok, query-ok}
use adquirente.Store.Papers.{create_chargeback, chargebacks_of, with_chargebacks}
use adquirente.Store.Books.{append_events}
use adquirente.Store.Books.Effects.{
  append_events-ok, append_entries-ok, with_events, with_entries, no_entries,
}
use adquirente.Application.Lifecycle.{pulled}
use adquirente.Application.Disputes.{
  Draws, dispute_all, book_changes, record_dispute, after_open, execute,
}

-- The entries that are booked: none when no receivable changed.
abbrev pub booked : List Receivable × List Entry → List Entry
booked ([], entries) = []
booked (r ∷ rs, entries) = entries

balanced_nil : balanced [] ≡ true
unfolding balanced balanced_from
balanced_nil = refl

-- The receivables changed one by one, and balanced entries were appended.
abbrev pub Books : List Receivable × List Entry → World → World → Type 0
Books changes w w' =
    UpdatedAll changes.0 w.database.receivables w'.database.receivables
    × (balanced (booked changes) ≡ true)
    × (w'.database
        ≡ with_entries (booked changes) (with_receivables w'.database.receivables w.database))
    × SameRest w w'

pub book_changes-ok :
    (changes : List Receivable × List Entry) (w : World) {u : Unit {0}} {w' : World}
    → book_changes changes w ≡ (ok u, w')
    → Books changes w w'
book_changes-ok ([], entries) w h =
    finish (λ u v. Books ([], entries) w v) tt w h
      (refl, balanced_nil, no_entries w.database, (refl, refl))
book_changes-ok (r ∷ rs, entries) w {u} {w'} h =
    after_ok (update_all (r ∷ rs) w) _ h λ x v ran rest.
      let (all, tables, same) = update_all-ok (r ∷ rs) w ran in
      let (fits, tables', same') = append_entries-ok entries v rest in
      let dues = ap (λ db. db.receivables) tables' in
      (
        subst (UpdatedAll (r ∷ rs) w.database.receivables) (sym dues) all,
        fits,
        tables'
            ∙ ap (with_entries entries)
                (tables ∙ ap (λ rows. with_receivables rows w.database) (sym dues)),
        SameRest-trans w v w' same same',
      )

-- The tables after a dispute: the sale, the dispute, the receivables, the entries and the events.
abbrev pub disputed :
    Transaction
    → Transaction
    → Chargeback
    → List (String × Receivable)
    → List Entry
    → Database
    → Database
disputed old tx cb dues entries db =
    with_events (pulled tx ++ map chargeback_event (pull_events cb).0) (
      with_entries entries (
        with_receivables dues (
          with_chargebacks (insert cb.id (record cb { events = [] }) db.chargebacks)
            (with_transactions (insert tx.id (set_columns tx old) db.transactions) db))))

abbrev with_dispute : Chargeback → Database → Database
with_dispute cb db = with_chargebacks (insert cb.id (record cb { events = [] }) db.chargebacks) db

-- The dispute was recorded.
abbrev pub Records : Draws → Time → Transaction → Chargeback → World → Chargeback → World → Type 0
Records d now tx cb w c w' =
    (old : Transaction) × (changes : List Receivable × List Entry) × (lookup tx.id
        w.database.transactions
      ≡ some old)
    × (dispute_all d.entry_id 0
          (d.by_installment
            (where_rows (λ r. str_eq r.transaction_id tx.id) w.database.receivables))
          now
        ≡ ok changes)
    × UpdatedAll changes.0 w.database.receivables w'.database.receivables
    × (balanced (booked changes) ≡ true)
    × (w'.database ≡ disputed old tx cb w'.database.receivables (booked changes) w.database)
    × (c ≡ (pull_events cb).1)
    × SameRest w w'

record_dispute-ok :
    (d : Draws) (now : Time) (tx : Transaction) (cb : Chargeback) (w : World) {c : Chargeback}
    {w' : World}
    → record_dispute d now tx cb w ≡ (ok c, w')
    → Records d now tx cb w c w'
unfolding record_dispute list_by_transaction
record_dispute-ok d now tx cb w {c} {w'} h = after_ok (update tx w) _ h λ u1 v1 updated h1.
    after_ok (create_chargeback cb v1) _ h1 λ u2 v2 created h2.
      after_ok (list_by_transaction d.by_installment tx.id v2) _ h2 λ list v3 listed h3.
        lifted_ok (dispute_all d.entry_id 0 list now) _ v3 h3 λ changes disputes h4.
          after_ok (book_changes changes v3) _ h4 λ u4 v4 booked_now h5.
            after_ok (append_events (pulled tx ++ map chargeback_event (pull_events cb).0) v4) _ h5
              λ u5 v5 appended last.
                let (old, found, older, t1, s1) = update-ok tx w updated in
                let (fresh, t2, s2) =
                  insert_in-ok chargebacks_of with_chargebacks cb.id (record cb { events = [] }) v1
                    created in
                let (rows, t3, s3) =
                  query-ok d.by_installment (λ r. str_eq r.transaction_id tx.id) v2 listed in
                let (all, fits, t4, s4) = book_changes-ok changes v3 booked_now in
                let (t5, s5) =
                  append_events-ok (pulled tx ++ map chargeback_event (pull_events cb).0) v4
                    appended in
                let dues = ap (λ db. db.receivables) t5 in
                let opened = t3 ∙ t2 ∙ ap (with_dispute cb) t1 in
                finish (Records d now tx cb w) (pull_events cb).1 v5 last (
                  old,
                  changes,
                  found,
                  ap (λ list. dispute_all d.entry_id 0 list now)
                        (sym (
                          rows
                          ∙ ap
                              (λ db.
                                d.by_installment
                                  (where_rows (λ r. str_eq r.transaction_id tx.id) db.receivables))
                              (sym t3 ∙ opened)))
                      ∙ disputes,
                  subst (λ new. UpdatedAll changes.0 w.database.receivables new) (sym dues)
                      (subst (λ rs. UpdatedAll changes.0 rs v4.database.receivables)
                        (ap (λ db. db.receivables) opened) all),
                  fits,
                  t5
                      ∙ ap (with_events (pulled tx ++ map chargeback_event (pull_events cb).0)) (
                          t4
                          ∙ ap
                              (λ db.
                                with_entries (booked changes)
                                  (with_receivables v4.database.receivables db))
                              opened)
                      ∙ ap (λ rs. disputed old tx cb rs (booked changes) w.database) (sym dues),
                  refl,
                  SameRest-trans w v1 v5 s1 (
                      SameRest-trans v1 v2 v5 s2
                        (SameRest-trans v2 v3 v5 s3 (SameRest-trans v3 v4 v5 s4 s5))),
                )

-- The dispute was opened on the stored sale of the merchant, and recorded.
abbrev pub Disputed :
    Draws → String → String → String → Money → Time → World → Chargeback → World → Type 0
Disputed d merchant_id transaction_id reason_code amount now w c w' =
    (tx : Transaction) × (charged : Transaction) × (cb : Chargeback) × (lookup transaction_id
        w.database.transactions
      ≡ some tx)
    × (str_eq tx.merchant_id merchant_id ≡ true)
    × (open_chargeback d.chargeback_id d.event_id d.sale_event_id tx reason_code amount now
        ≡ (charged, ok cb))
    × Records d now charged cb w c w'

-- What a run records does not depend on how the world is named that has the same tables.
Records-from :
    (d : Draws) (now : Time) (tx : Transaction) (cb : Chargeback) (w v : World) (c : Chargeback)
    (w' : World)
    → v.database ≡ w.database
    → SameRest w v
    → Records d now tx cb v c w'
    → Records d now tx cb w c w'
Records-from d now tx cb w v c w' tables same
      (old, changes, found, disputes, all, fits, after, value, same') =
    (
      old,
      changes,
      sym (ap (λ db. lookup tx.id db.transactions) tables) ∙ found,
      ap
            (λ db.
              dispute_all d.entry_id 0
                (d.by_installment (where_rows (λ r. str_eq r.transaction_id tx.id) db.receivables))
                now)
            (sym tables)
          ∙ disputes,
      subst (λ db. UpdatedAll changes.0 db.receivables w'.database.receivables) tables all,
      fits,
      after ∙ ap (disputed old tx cb w'.database.receivables (booked changes)) tables,
      value,
      SameRest-trans w v w' same same',
    )

opened_ok :
    (d : Draws) (now : Time) (r : Transaction × Result Chargeback) (w : World) {c : Chargeback}
    {w' : World}
    → after_open d now r w ≡ (ok c, w')
    → (charged : Transaction) × (cb : Chargeback) × (r ≡ (charged, ok cb))
      × Records d now charged cb w c w'
opened_ok d now (tx, err e) w h = absurd (cc (ap (λ p. p.0) h))
opened_ok d now (tx, ok cb) w h = (tx, cb, refl, record_dispute-ok d now tx cb w h)

-- The opening of a dispute that succeeds charged the stored sale of that merchant back, and it stored
-- the sale, the new dispute, every receivable that the dispute takes back, balanced ledger entries
-- that reverse them and the events, and no other row; one that fails, at any statement, left every
-- table as it was.
pub execute-IsAtomic :
    (d : Draws) (merchant_id transaction_id reason_code : String) (amount : Money) (now : Time)
    (w : World)
    → AllOrNothing
        (Disputed d merchant_id transaction_id reason_code amount now)
        w
        (execute d merchant_id transaction_id reason_code amount now w)
unfolding execute
execute-IsAtomic d merchant_id transaction_id reason_code amount now w =
    all_or_nothing (Disputed d merchant_id transaction_id reason_code amount now) w _
      (λ c w' h.
        in_unit_of_work (Disputed d merchant_id transaction_id reason_code amount now) _ w h
          λ v u ran. after_ok (find merchant_id transaction_id v) _ ran λ tx x found rest.
            let (row, owned, tables, same) = find-ok merchant_id transaction_id v found in
            let (charged, cb, opened, recorded) = opened_ok d now _ x rest in
            (
              tx,
              charged,
              cb,
              row,
              owned,
              opened,
              Records-from d now charged cb v x c u tables same recorded,
            ))
      (λ e w' h. unit_of_work-err _ w h)
