-- ===== src/Application/Lifecycle/Effect.antt =====
-- A change of a stored transaction is made as a whole, or not at all.
use adquirente.Base.{◌≡◌, refl, sym, ap, ◌∙◌, true, String, str_eq, none, some}
use adquirente.Base.Assoc.{lookup, insert, string_eq}
use adquirente.Shared.Error.{ok, Outcome}
use adquirente.Transaction.{Transaction, pull_events}
use adquirente.Store.{Database, World, applied, ◌>>=◌}
use adquirente.Store.Laws.{
  SameRest, SameRest-trans, after_ok, applied_ok, finish, in_unit_of_work, unit_of_work-err,
  AllOrNothing, all_or_nothing,
}
use adquirente.Store.Sales.{find, update, set_columns}
use adquirente.Store.Sales.Effects.{find-ok, update-ok}
use adquirente.Store.Books.{append_events}
use adquirente.Store.Books.Effects.{append_events-ok, with_events}
use adquirente.Application.Lifecycle.{pulled, save, change}

-- The tables after a transaction that was `old` is stored as `new`.
abbrev pub saved : Transaction → Transaction → Database → Database
saved old new db =
    with_events (pulled new)
      (record db { transactions = insert new.id (set_columns new old) db.transactions })

-- The change was made: the method succeeded on the stored transaction of the merchant.
abbrev pub Changed :
    String → String → (Transaction → Outcome Transaction) → World → Transaction → World → Type 0
Changed merchant_id id apply w t w' =
    (tx : Transaction) × (new : Transaction) × (old : Transaction) × (lookup id
        w.database.transactions
      ≡ some tx)
    × (str_eq tx.merchant_id merchant_id ≡ true)
    × (apply tx ≡ (new, none))
    × (lookup new.id w.database.transactions ≡ some old)
    × (w'.database ≡ saved old new w.database)
    × (t ≡ (pull_events new).1)
    × SameRest w w'

-- The new value was stored.
abbrev pub Saved : Transaction → World → Transaction → World → Type 0
Saved new w t w' =
    (old : Transaction) × (lookup new.id w.database.transactions ≡ some old)
    × (w'.database ≡ saved old new w.database)
    × (t ≡ (pull_events new).1)
    × SameRest w w'

pub save-ok :
    (new : Transaction) (w : World) {t : Transaction} {w' : World}
    → save new w ≡ (ok t, w')
    → Saved new w t w'
unfolding save
save-ok new w {t} {w'} h = after_ok (update new w) _ h λ u v ran rest.
    after_ok (append_events (pulled new) v) _ rest λ u' x appended last.
      let (old, found, older, tables, same) = update-ok new w ran in
      let (tables', same') = append_events-ok (pulled new) v appended in
      finish (Saved new w) (pull_events new).1 x last (
        old,
        found,
        tables' ∙ ap (with_events (pulled new)) tables,
        refl,
        SameRest-trans w v x same same',
      )

Changed-ok :
    (merchant_id id : String) (apply : Transaction → Outcome Transaction) (w : World)
    {t : Transaction} {w' : World}
    → (find merchant_id id >>= λ tx. applied (apply tx) >>= save) w ≡ (ok t, w')
    → Changed merchant_id id apply w t w'
Changed-ok merchant_id id apply w {t} {w'} h = after_ok (find merchant_id id w) _ h λ tx v ran rest.
    applied_ok (apply tx) save v rest λ new method stored.
      let (row, owned, tables, same) = find-ok merchant_id id w ran in
      let (old, found, tables', value, same') = save-ok new v stored in
      (
        tx,
        new,
        old,
        row,
        owned,
        method,
        sym (ap (λ db. lookup new.id db.transactions) tables) ∙ found,
        tables' ∙ ap (saved old new) tables,
        value,
        SameRest-trans w v w' same same',
      )

-- A capture or a cancellation that reports success changed exactly the stored transaction of that
-- merchant, by the method, and added its events to the outbox; one that reports an error left
-- every table as it was. This holds for every script of database faults.
pub change-IsAtomic :
    (merchant_id id : String) (apply : Transaction → Outcome Transaction) (w : World)
    → AllOrNothing (Changed merchant_id id apply) w (change merchant_id id apply w)
unfolding change
change-IsAtomic merchant_id id apply w =
    all_or_nothing (Changed merchant_id id apply) w _
      (λ t w' h.
        in_unit_of_work (Changed merchant_id id apply) _ w h
          λ v u ran. Changed-ok merchant_id id apply v ran)
      (λ e w' h. unit_of_work-err _ w h)
