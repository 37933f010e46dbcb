-- ===== src/Application/Scheduling/Effect.antt =====
-- What the consumer leaves in the tables, and how often.
use mathlib.Core.Path.{subst}
use adquirente.Base.{◌≡◌, sym, ap, ◌∙◌, true, str_eq, some, List}
use adquirente.Base.Assoc.{lookup, string_eq}
use adquirente.Shared.Error.{Result, ok, err}
use adquirente.Merchant.{Merchant}
use adquirente.Transaction.{Transaction, TransactionCaptured, TransactionCanceled}
use adquirente.Receivable.{Receivable, new_receivables_scheduled}
use adquirente.Receivable.Schedule.{schedule}
use adquirente.Ledger.{Entry, balanced, for_scheduled}
use adquirente.Store.{World, OutboxEvent}
use adquirente.Store.Laws.{SameRest, SameRest-trans, after_ok, lifted_ok, finish}
use adquirente.Store.Sales.{find}
use adquirente.Store.Sales.Effects.{find-ok}
use adquirente.Store.Shops.{find_merchant, find_merchant-ok, read_merchant}
use adquirente.Store.Dues.{save_all, list_by_transaction, with_receivables}
use adquirente.Store.Dues.Effects.{InsertedAll, save_all-ok, query-ok}
use adquirente.Store.Books.{append_events, append_entries}
use adquirente.Store.Books.Effects.{append_events-ok, append_entries-ok, with_events, with_entries}
use adquirente.Application.Disputes.Atomic.{book_changes-ok, booked}
use adquirente.Application.Scheduling.{
  Scheduler, as_permanent, announced, save_agenda, agenda, cancel_all, take_back,
}

as_permanent-ok : {A : Type 0} (r : Result A) {a : A} → as_permanent r ≡ ok a → r ≡ ok a
as_permanent-ok (ok b) h = h
as_permanent-ok (err e) h = absurd cc

module _ {Payload : Type 0} (s : Scheduler Payload) where
  -- The agenda of a captured sale was stored: its new receivables, balanced entries, one event.
  abbrev pub Stored : Transaction → Merchant → World → List Receivable → World → Type 0
  Stored tx m w list w' =
      (evs : List OutboxEvent) × (schedule s.receivable_id tx m.fee_plan s.calendar s.now ≡ ok list)
      × (announced (new_receivables_scheduled s.event_id list s.now) ≡ ok evs)
      × InsertedAll list w.database.receivables w'.database.receivables
      × (balanced (for_scheduled s.entry_id list s.now) ≡ true)
      × (w'.database
          ≡ with_events evs (
              with_entries (for_scheduled s.entry_id list s.now)
                (with_receivables w'.database.receivables w.database)))
      × SameRest w w'

  save_agenda-ok :
      (tx : Transaction) (m : Merchant) (w : World) {list : List Receivable} {w' : World}
      → save_agenda s tx m w ≡ (ok list, w')
      → Stored tx m w list w'
  unfolding save_agenda
  save_agenda-ok tx m w {list} {w'} h =
      lifted_ok (as_permanent (schedule s.receivable_id tx m.fee_plan s.calendar s.now)) _ w h
        λ rs planned h1. after_ok (save_all rs w) _ h1 λ u1 v1 saved h2.
          after_ok (append_entries (for_scheduled s.entry_id rs s.now) v1) _ h2 λ u2 v2 booked h3.
            lifted_ok (announced (new_receivables_scheduled s.event_id rs s.now)) _ v2 h3
              λ evs said h4. after_ok (append_events evs v2) _ h4 λ u3 v3 appended last.
                let (all, t1, s1) = save_all-ok rs w saved in
                let (fits, t2, s2) =
                  append_entries-ok (for_scheduled s.entry_id rs s.now) v1 booked in
                let (t3, s3) = append_events-ok evs v2 appended in
                let dues = ap (λ db. db.receivables) (t3 ∙ ap (with_events evs) t2) in
                finish (Stored tx m w) rs v3 last (
                  evs,
                  as_permanent-ok _ planned,
                  said,
                  subst (InsertedAll rs w.database.receivables) (sym dues) all,
                  fits,
                  t3
                      ∙ ap (with_events evs)
                          (t2 ∙ ap (with_entries (for_scheduled s.entry_id rs s.now)) t1)
                      ∙ ap
                          (λ rows. with_events evs (
                            with_entries (for_scheduled s.entry_id rs s.now)
                              (with_receivables rows w.database)))
                          (sym dues),
                  SameRest-trans w v1 v3 s1 (SameRest-trans v1 v2 v3 s2 s3),
                )

  -- The agenda of the sale that the event is about, with the plan of its merchant.
  abbrev pub Plans : TransactionCaptured → World → List Receivable → World → Type 0
  Plans ev w list w' =
      (tx : Transaction) × (m : Merchant) × (lookup ev.base.aggregate w.database.transactions
        ≡ some tx)
      × (str_eq tx.merchant_id ev.merchant_id ≡ true)
      × (read_merchant (lookup ev.merchant_id w.database.merchants) ≡ ok m)
      × Stored tx m w list w'

  Stored-from :
      (tx : Transaction) (m : Merchant) (w v : World) (list : List Receivable) (w' : World)
      → v.database ≡ w.database
      → SameRest w v
      → Stored tx m v list w'
      → Stored tx m w list w'
  Stored-from tx m w v list w' tables same (evs, planned, said, all, fits, after, same') = (
    evs,
    planned,
    said,
    subst (λ db. InsertedAll list db.receivables w'.database.receivables) tables all,
    fits,
    after
        ∙ ap
            (λ db. with_events evs (
              with_entries (for_scheduled s.entry_id list s.now)
                (with_receivables w'.database.receivables db)))
            tables,
    SameRest-trans w v w' same same',
  )

  pub agenda-ok :
      (ev : TransactionCaptured) (w : World) {list : List Receivable} {w' : World}
      → agenda s ev w ≡ (ok list, w')
      → Plans ev w list w'
  unfolding agenda
  agenda-ok ev w {list} {w'} h =
      after_ok (find ev.merchant_id ev.base.aggregate w) _ h λ tx v found h1.
        after_ok (find_merchant ev.merchant_id v) _ h1 λ m x read h2.
          let (row, owned, t1, s1) = find-ok ev.merchant_id ev.base.aggregate w found in
          let (shop, t2, s2) = find_merchant-ok ev.merchant_id v read in
          (
            tx,
            m,
            row,
            owned,
            sym (ap (λ db. read_merchant (lookup ev.merchant_id db.merchants)) t1) ∙ shop,
            Stored-from tx m w x list w' (t2 ∙ t1) (SameRest-trans w v x s1 s2)
                (save_agenda-ok tx m x h2),
          )

  -- The receivables of a canceled sale were taken back, with balanced entries.
  abbrev pub TakesBack : World → World → Type 0
  TakesBack w w' =
      (changes : List Receivable × List Entry) × (balanced (booked changes) ≡ true)
      × (w'.database
          ≡ with_entries (booked changes) (with_receivables w'.database.receivables w.database))

  pub take_back-TakesBack :
      (ev : TransactionCanceled) (w : World) {u : Unit {0}} {w' : World}
      → take_back s ev w ≡ (ok u, w')
      → TakesBack w w'
  unfolding take_back list_by_transaction
  take_back-TakesBack ev w {u} {w'} h =
      after_ok (list_by_transaction s.by_installment ev.base.aggregate w) _ h λ list v listed h1.
        lifted_ok (cancel_all s 0 list) _ v h1 λ changes canceled h2.
          let (rows, t1, s1) = query-ok s.by_installment _ w listed in
          let (all, fits, t2, s2) = book_changes-ok changes v h2 in
          (
            changes,
            fits,
            t2
                ∙ ap
                    (λ db.
                      with_entries (booked changes) (with_receivables w'.database.receivables db))
                    t1,
          )
