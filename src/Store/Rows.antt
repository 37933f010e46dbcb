-- ===== src/Store/Rows.antt =====
-- The effects of a statement on one row of a table, for any table.
use adquirente.Base.{◌≡◌, ap, ◌∙◌, Bool, true, String, none, some, List}
use adquirente.Base.Assoc.{lookup, insert, string_eq}
use adquirente.Shared.Error.{ok}
use adquirente.Store.{Database, World, Action, statement}
use adquirente.Store.Laws.{statement-ok, SameRest}
use adquirente.Store.Tables.{
  insert_row, update_row, find_row, selected, written, selected-ok, written-ok, insert_row-ok,
  update_row-ok, find_row-ok,
}

module _ {V : Type 0} (get : Database → List (String × V))
    (put : List (String × V) → Database → Database) where
  unfoldable pub insert_in : String → V → Action (Unit {0})
  insert_in id v = statement λ db. written (λ rows. put rows db) (insert_row id v (get db))

  unfoldable pub update_in : String → (V → Bool) → (V → V) → Action (Unit {0})
  update_in id is_older change =
      statement λ db. written (λ rows. put rows db) (update_row id is_older change (get db))

  unfoldable pub find_in : String → (V → Bool) → Action V
  find_in id is_owned = statement λ db. selected db (find_row id is_owned (get db))

  pub insert_in-ok :
      (id : String) (v : V) (w : World) {u : Unit {0}} {w' : World}
      → insert_in id v w ≡ (ok u, w')
      → (lookup id (get w.database) ≡ none)
        × (w'.database ≡ put (insert id v (get w.database)) w.database)
        × SameRest w w'
  unfolding insert_in
  insert_in-ok id v w h =
      let (ran, rest) = statement-ok _ w h in
      let (rows, inserted, same) = written-ok (λ rows. put rows w.database) _ ran in
      let (fresh, eq) = insert_row-ok id v (get w.database) inserted in
      (fresh, same ∙ ap (λ rows. put rows w.database) eq, rest)

  pub update_in-ok :
      (id : String) (is_older : V → Bool) (change : V → V) (w : World) {u : Unit {0}} {w' : World}
      → update_in id is_older change w ≡ (ok u, w')
      → (old : V) × (lookup id (get w.database) ≡ some old)
        × (is_older old ≡ true)
        × (w'.database ≡ put (insert id (change old) (get w.database)) w.database)
        × SameRest w w'
  unfolding update_in
  update_in-ok id is_older change w h =
      let (ran, rest) = statement-ok _ w h in
      let (rows, updated, same) = written-ok (λ rows. put rows w.database) _ ran in
      let (old, found, older, eq) = update_row-ok id is_older change (get w.database) updated in
      (old, found, older, same ∙ ap (λ rows. put rows w.database) eq, rest)

  pub find_in-ok :
      (id : String) (is_owned : V → Bool) (w : World) {v : V} {w' : World}
      → find_in id is_owned w ≡ (ok v, w')
      → (lookup id (get w.database) ≡ some v)
        × (is_owned v ≡ true)
        × (w'.database ≡ w.database)
        × SameRest w w'
  unfolding find_in
  find_in-ok id is_owned w h =
      let (ran, rest) = statement-ok _ w h in
      let (found, same) = selected-ok w.database _ ran in
      let (row, owned) = find_row-ok id is_owned (get w.database) found in (row, owned, same, rest)
