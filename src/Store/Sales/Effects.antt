-- ===== src/Store/Sales/Effects.antt =====
-- What a statement on the transactions did, when it succeeded.
use adquirente.Base.{ℕ, ◌≡◌, refl, sym, ap, ◌∙◌, true, String, str_eq, none, some}
use adquirente.Base.Int.{ltb_ℤ}
use adquirente.Base.Assoc.{lookup, insert, string_eq}
use adquirente.Shared.Error.{Result, ok, err}
use adquirente.Transaction.{Transaction}
use adquirente.Store.{World}
use adquirente.Store.Laws.{transaction_control, SameRest}
use adquirente.Store.Rows.{insert_in-ok, update_in-ok, find_in-ok}
use adquirente.Store.Sales.{
  restored, create, find, set_columns, update, next_nsu, transactions_of, with_transactions,
  counted,
}

pub find-ok :
    (merchant_id id : String) (w : World) {t : Transaction} {w' : World}
    → find merchant_id id w ≡ (ok t, w')
    → (lookup id w.database.transactions ≡ some t)
      × (str_eq t.merchant_id merchant_id ≡ true)
      × (w'.database ≡ w.database)
      × SameRest w w'
find-ok merchant_id id w h =
    find_in-ok transactions_of with_transactions id (λ t. str_eq t.merchant_id merchant_id) w h

pub create-ok :
    (t : Transaction) (w : World) {u : Unit {0}} {w' : World}
    → create t w ≡ (ok u, w')
    → (lookup t.id w.database.transactions ≡ none)
      × (w'.database
          ≡ record w.database { transactions = insert t.id (restored t) w.database.transactions })
      × SameRest w w'
create-ok t w h = insert_in-ok transactions_of with_transactions t.id (restored t) w h

pub update-ok :
    (t : Transaction) (w : World) {u : Unit {0}} {w' : World}
    → update t w ≡ (ok u, w')
    → (old : Transaction) × (lookup t.id w.database.transactions ≡ some old)
      × (ltb_ℤ old.version t.version ≡ true)
      × (w'.database ≡ record w.database {
        transactions = insert t.id (set_columns t old) w.database.transactions;
      })
      × SameRest w w'
update-ok t w h =
    update_in-ok transactions_of with_transactions t.id (λ old. ltb_ℤ old.version t.version)
      (set_columns t) w h

counted-ok :
    (text_of : ℕ → String) (r : Result (Unit {0}) × World) {nsu : String} {w' : World}
    → counted text_of r ≡ (ok nsu, w')
    → (v : World) × (r ≡ (ok tt, v)) × (w'.database ≡ v.database) × (w'.calls ≡ v.calls)
counted-ok text_of (ok u, v) h =
    (v, refl, sym (ap (λ p. p.1.database) h), sym (ap (λ p. p.1.calls) h))
counted-ok text_of (err e, v) h = absurd (cc (ap (λ p. p.0) h))

-- Drawing a number changes no table and calls no service.
pub next_nsu-ok :
    (text_of : ℕ → String) (w : World) {nsu : String} {w' : World}
    → next_nsu text_of w ≡ (ok nsu, w')
    → (w'.database ≡ w.database) × (w'.calls ≡ w.calls)
unfolding next_nsu
next_nsu-ok text_of w h =
    let (v, ran, tables, calls) = counted-ok text_of _ h in
    let (d, n, c) = transaction_control w v tt ran in (tables ∙ d, calls ∙ c)
