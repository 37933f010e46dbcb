-- ===== src/Store/Shops.antt =====
-- internal/infrastructure/gormrepo/merchant_repository.go. Reading a row builds its fee plan again,
-- so a row with rates out of range is an error.
use adquirente.Base.{
  ◌≡◌, String, Bool, false, ◌||◌, Option, none, some, List, [], ◌∷◌, if◌then◌else◌, true, refl, ap,
  ◌∙◌,
}
use adquirente.Base.Int.{ltb_ℤ}
use adquirente.Base.Texts.{Text, text_eq}
use adquirente.Base.Assoc.{lookup, insert, string_eq}
use adquirente.Shared.Error.{Result, ok, err, external, not_found}
use adquirente.Shared.Time.{Time}
use adquirente.Merchant.{Merchant}
use adquirente.Merchant.Fees.{FeePlan, new_fee_plan}
use adquirente.Store.{World, Action, statement}
use adquirente.Store.Laws.{SameRest, statement-ok}
use adquirente.Store.Tables.{
  insert_row, update_row, selected, written, selected-ok, written-ok, update_row-ok, insert_row-ok,
}

-- `document` is unique.
abbrev pub has_document : Text → List (String × Merchant) → Bool
has_document d [] = false
has_document d ((id, m) ∷ rows) = text_eq m.document d || has_document d rows

abbrev insert_merchant : Merchant → List (String × Merchant) → Result (List (String × Merchant))
insert_merchant m rows =
    if has_document m.document rows
    then err (external "duplicate document")
    else insert_row m.id m rows

unfoldable pub create_merchant : Merchant → Action (Unit {0})
create_merchant m =
    statement
      λ db. written (λ rows. record db { merchants = rows }) (insert_merchant m db.merchants)

-- `toDomain`
abbrev with_plan : Merchant → Result FeePlan → Result Merchant
with_plan m (ok plan) = ok (record m { fee_plan = plan })
with_plan m (err e) = err e

unfoldable pub to_domain : Merchant → Result Merchant
to_domain m =
    let p = m.fee_plan in
    with_plan m
      (new_fee_plan p.debit_rate p.credit_one_shot p.credit_installments p.anticipation_rate_month)

abbrev pub read_merchant : Option Merchant → Result Merchant
read_merchant none = err not_found
read_merchant (some m) = to_domain m

unfoldable pub find_merchant : String → Action Merchant
find_merchant id = statement λ db. selected db (read_merchant (lookup id db.merchants))

-- All columns but `id` and `created_at` are set; gorm sets `updated_at` itself, to the time `stamp`
-- of its clock.
abbrev pub set_merchant : Time → Merchant → Merchant → Merchant
set_merchant stamp m old = record m { id = old.id; created_at = old.created_at; updated_at = stamp }

unfoldable pub update_merchant : Time → Merchant → Action (Unit {0})
update_merchant stamp m = statement λ db.
    written (λ rows. record db { merchants = rows })
      (update_row m.id (λ old. ltb_ℤ old.version m.version) (set_merchant stamp m) db.merchants)

pub find_merchant-ok :
    (id : String) (w : World) {m : Merchant} {w' : World}
    → find_merchant id w ≡ (ok m, w')
    → (read_merchant (lookup id w.database.merchants) ≡ ok m)
      × (w'.database ≡ w.database)
      × SameRest w w'
unfolding find_merchant
find_merchant-ok id w h =
    let (ran, rest) = statement-ok _ w h in
    let (value, tables) =
      selected-ok w.database (read_merchant (lookup id w.database.merchants)) ran in
    (value, tables, rest)

pub update_merchant-ok :
    (stamp : Time) (m : Merchant) (w : World) {u : Unit {0}} {w' : World}
    → update_merchant stamp m w ≡ (ok u, w')
    → (old : Merchant) × (lookup m.id w.database.merchants ≡ some old)
      × (ltb_ℤ old.version m.version ≡ true)
      × (w'.database ≡ record w.database {
        merchants = insert m.id (set_merchant stamp m old) w.database.merchants;
      })
      × SameRest w w'
unfolding update_merchant
update_merchant-ok stamp m w h =
    let (ran, rest) = statement-ok _ w h in
    let (rows, updated, same) = written-ok (λ rows. record w.database { merchants = rows }) _ ran in
    let (old, found, older, eq) =
      update_row-ok m.id _ (set_merchant stamp m) w.database.merchants updated in
    (old, found, older, same ∙ ap (λ rows. record w.database { merchants = rows }) eq, rest)

unless_taken :
    (b : Bool) (m : Merchant) (rows : List (String × Merchant)) {rows' : List (String × Merchant)}
    → (if b then err (external "duplicate document") else insert_row m.id m rows) ≡ ok rows'
    → (b ≡ false) × (insert_row m.id m rows ≡ ok rows')
unless_taken true m rows h = absurd cc
unless_taken false m rows h = (refl, h)

pub create_merchant-ok :
    (m : Merchant) (w : World) {u : Unit {0}} {w' : World}
    → create_merchant m w ≡ (ok u, w')
    → (lookup m.id w.database.merchants ≡ none)
      × (has_document m.document w.database.merchants ≡ false)
      × (w'.database ≡ record w.database { merchants = insert m.id m w.database.merchants })
      × SameRest w w'
unfolding create_merchant
create_merchant-ok m w h =
    let (ran, rest) = statement-ok _ w h in
    let (rows, inserted, same) =
      written-ok (λ rows. record w.database { merchants = rows }) _ ran in
    let (unused, placed) =
      unless_taken (has_document m.document w.database.merchants) m w.database.merchants inserted in
    let (fresh, eq) = insert_row-ok m.id m w.database.merchants placed in
    (fresh, unused, same ∙ ap (λ rows. record w.database { merchants = rows }) eq, rest)
