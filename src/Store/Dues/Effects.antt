-- ===== src/Store/Dues/Effects.antt =====
-- What a statement on the receivables did, when it succeeded.
use mathlib.Core.Path.{subst}
use adquirente.Base.{◌≡◌, refl, sym, ap, ◌∙◌, Bool, true, String, none, some, List, [], ◌∷◌}
use adquirente.Base.Int.{ltb_ℤ}
use adquirente.Base.Assoc.{lookup, insert, string_eq}
use adquirente.Shared.Error.{ok}
use adquirente.Receivable.{Receivable}
use adquirente.Store.{World}
use adquirente.Store.Laws.{statement-ok, after_ok, finish, SameRest, SameRest-trans}
use adquirente.Store.Rows.{insert_in-ok, update_in-ok}
use adquirente.Store.Tables.{ok_injective}
use adquirente.Store.Dues.{
  receivables_of, with_receivables, insert_one, save_all, set_columns, update_one, update_all,
  where_rows, query,
}

-- The table after new rows, each under a new key.
abbrev pub InsertedAll :
    List Receivable → List (String × Receivable) → List (String × Receivable) → Type 0
InsertedAll [] rows rows' = rows' ≡ rows
InsertedAll (r ∷ rs) rows rows' =
    (lookup r.id rows ≡ none) × InsertedAll rs (insert r.id r rows) rows'

-- The table after updates, each of a row with an older version.
abbrev pub UpdatedAll :
    List Receivable → List (String × Receivable) → List (String × Receivable) → Type 0
UpdatedAll [] rows rows' = rows' ≡ rows
UpdatedAll (r ∷ rs) rows rows' =
    (old : Receivable) × (lookup r.id rows ≡ some old)
    × (ltb_ℤ old.version r.version ≡ true)
    × UpdatedAll rs (insert r.id (set_columns r old) rows) rows'

-- A run that only changes the receivables, in a given way.
abbrev pub Rewrites :
    (List (String × Receivable) → List (String × Receivable) → Type 0) → World → World → Type 0
Rewrites R w w' =
    R w.database.receivables w'.database.receivables
    × (w'.database ≡ with_receivables w'.database.receivables w.database)
    × SameRest w w'

-- A run after a first step.
Rewrites-then :
    (R : List (String × Receivable) → List (String × Receivable) → Type 0)
    (rows : List (String × Receivable)) (w v w' : World)
    → v.database ≡ with_receivables rows w.database
    → SameRest w v
    → Rewrites R v w'
    → Rewrites (λ old new. R rows new) w w'
Rewrites-then R rows w v w' tables same (r, tables', same') = (
  subst (λ old. R old w'.database.receivables) (ap (λ db. db.receivables) tables) r,
  tables' ∙ ap (with_receivables w'.database.receivables) tables,
  SameRest-trans w v w' same same',
)

insert_one-ok :
    (r : Receivable) (w : World) {u : Unit {0}} {w' : World}
    → insert_one r w ≡ (ok u, w')
    → (lookup r.id w.database.receivables ≡ none)
      × (w'.database ≡ with_receivables (insert r.id r w.database.receivables) w.database)
      × SameRest w w'
insert_one-ok r w h = insert_in-ok receivables_of with_receivables r.id r w h

update_one-ok :
    (r : Receivable) (w : World) {u : Unit {0}} {w' : World}
    → update_one r w ≡ (ok u, w')
    → (old : Receivable) × (lookup r.id w.database.receivables ≡ some old)
      × (ltb_ℤ old.version r.version ≡ true)
      × (w'.database
          ≡ with_receivables (insert r.id (set_columns r old) w.database.receivables) w.database)
      × SameRest w w'
update_one-ok r w h =
    update_in-ok receivables_of with_receivables r.id (λ old. ltb_ℤ old.version r.version)
      (set_columns r) w h

pub save_all-ok :
    (rs : List Receivable) (w : World) {u : Unit {0}} {w' : World}
    → save_all rs w ≡ (ok u, w')
    → Rewrites (InsertedAll rs) w w'
unfolding save_all
save_all-ok [] w h = finish (λ u v. Rewrites (InsertedAll []) w v) tt w h (refl, refl, (refl, refl))
save_all-ok (r ∷ rs) w {u} {w'} h = after_ok (insert_one r w) _ h λ x v ran rest.
    let (fresh, tables, same) = insert_one-ok r w ran in
    let (all, tables', same') =
      Rewrites-then (InsertedAll rs) _ w v w' tables same (save_all-ok rs v rest) in
    ((fresh, all), tables', same')

pub update_all-ok :
    (rs : List Receivable) (w : World) {u : Unit {0}} {w' : World}
    → update_all rs w ≡ (ok u, w')
    → Rewrites (UpdatedAll rs) w w'
unfolding update_all
update_all-ok [] w h =
    finish (λ u v. Rewrites (UpdatedAll []) w v) tt w h (refl, refl, (refl, refl))
update_all-ok (r ∷ rs) w {u} {w'} h = after_ok (update_one r w) _ h λ x v ran rest.
    let (old, found, older, tables, same) = update_one-ok r w ran in
    let (all, tables', same') =
      Rewrites-then (UpdatedAll rs) _ w v w' tables same (update_all-ok rs v rest) in
    ((old, found, older, all), tables', same')

pub query-ok :
    (sorted : List Receivable → List Receivable) (test : Receivable → Bool) (w : World)
    {rs : List Receivable} {w' : World}
    → query sorted test w ≡ (ok rs, w')
    → (rs ≡ sorted (where_rows test w.database.receivables))
      × (w'.database ≡ w.database)
      × SameRest w w'
unfolding query
query-ok sorted test w h =
    let (ran, same) = statement-ok _ w h in
    (sym (ap (λ p. p.0) (ok_injective ran)), sym (ap (λ p. p.1) (ok_injective ran)), same)
