-- ===== src/Store/Tables.antt =====
-- Statements on one table of the database: `INSERT` under a primary key, `UPDATE` of a row with an
-- older version, and `SELECT` by key.
use adquirente.Base.{
  ap, sym, ◌∙◌, Bool, true, false, String, Option, none, some, List, ◌≡◌, refl, if◌then◌else◌,
}
use adquirente.Base.Assoc.{lookup, insert, string_eq}
use adquirente.Shared.Error.{Error, Result, ok, err, external, concurrent_update, not_found}

-- `INSERT`: the primary key must be new.
abbrev insert_found :
    {V : Type 0} → String → V → List (String × V) → Option V → Result (List (String × V))
insert_found id v rows none = ok (insert id v rows)
insert_found id v rows (some old) = err (external "duplicate key")

abbrev pub insert_row : {V : Type 0} → String → V → List (String × V) → Result (List (String × V))
insert_row id v rows = insert_found id v rows (lookup id rows)

-- `UPDATE … WHERE id = … AND version < …`, and the test of `RowsAffected`: `is_older` is the test of
-- the version, and `change` sets the columns.
abbrev update_found :
    {V : Type 0}
    → String
    → (V → Bool)
    → (V → V)
    → List (String × V)
    → Option V
    → Result (List (String × V))
update_found id is_older change rows none = err concurrent_update
update_found id is_older change rows (some old) =
    if is_older old then ok (insert id (change old) rows) else err concurrent_update

abbrev pub update_row :
    {V : Type 0} → String → (V → Bool) → (V → V) → List (String × V) → Result (List (String × V))
update_row id is_older change rows = update_found id is_older change rows (lookup id rows)

-- `SELECT … WHERE id = … AND merchant_id = …`, with `ErrNotFound` for no row.
abbrev found_row : {V : Type 0} → (V → Bool) → Option V → Result V
found_row is_owned none = err not_found
found_row is_owned (some v) = if is_owned v then ok v else err not_found

abbrev pub find_row : {V : Type 0} → String → (V → Bool) → List (String × V) → Result V
find_row id is_owned rows = found_row is_owned (lookup id rows)

-- A statement that only reads.
abbrev pub selected : {A D : Type 0} → D → Result A → Result (A × D)
selected db (ok a) = ok (a, db)
selected db (err e) = err e

-- The tables after a statement that writes one of them.
abbrev pub written : {T D : Type 0} → (T → D) → Result T → Result (Unit {0} × D)
written put (ok rows) = ok (tt, put rows)
written put (err e) = err e

abbrev row_or : {A D : Type 0} → A → Result (A × D) → A
row_or a (ok (b, db)) = b
row_or a (err e) = a

abbrev tables_or : {A D : Type 0} → D → Result (A × D) → D
tables_or db (ok (a, db')) = db'
tables_or db (err e) = db

pub selected-ok :
    {A D : Type 0} (db : D) (r : Result A) {a : A} {db' : D}
    → selected db r ≡ ok (a, db')
    → (r ≡ ok a) × (db' ≡ db)
selected-ok db (ok b) h = (ap ok (ap (row_or b) h), sym (ap (tables_or db) h))
selected-ok db (err e) h = cc

pub written-ok :
    {T D : Type 0} (put : T → D) (r : Result T) {u : Unit {0}} {db' : D}
    → written put r ≡ ok (u, db')
    → (rows : T) × (r ≡ ok rows) × (db' ≡ put rows)
written-ok put (ok rows) h = (rows, refl, sym (ap (tables_or (put rows)) h))
written-ok put (err e) h = cc

abbrev value_or : {A : Type 0} → A → Result A → A
value_or a (ok b) = b
value_or a (err e) = a

pub ok_injective : {A : Type 0} {a b : A} → ◌≡◌ {A = Result A} (ok a) (ok b) → a ≡ b
ok_injective {a} h = ap (value_or a) h

insert_found-ok :
    {V : Type 0} (id : String) (v : V) (rows : List (String × V)) (o : Option V)
    {rows' : List (String × V)}
    → insert_found id v rows o ≡ ok rows'
    → (o ≡ none) × (rows' ≡ insert id v rows)
insert_found-ok id v rows none h = (refl, sym (ok_injective h))
insert_found-ok id v rows (some old) h = cc

pub insert_row-ok :
    {V : Type 0} (id : String) (v : V) (rows : List (String × V)) {rows' : List (String × V)}
    → insert_row id v rows ≡ ok rows'
    → (lookup id rows ≡ none) × (rows' ≡ insert id v rows)
insert_row-ok id v rows h = insert_found-ok id v rows (lookup id rows) h

if_ok :
    {A : Type 0} (b : Bool) (a : A) (e : Error) {a' : A}
    → (if b then ok a else err e) ≡ ok a'
    → (b ≡ true) × (a' ≡ a)
if_ok true a e h = (refl, sym (ok_injective h))
if_ok false a e h = cc

-- The row that an update changed, and the table after it.
abbrev pub Updated :
    {V : Type 0}
    → (V → Bool)
    → (V → V)
    → String
    → List (String × V)
    → Option V
    → List (String × V)
    → Type 0
Updated {V} is_older change id rows o rows' =
    (old : V) × (o ≡ some old) × (is_older old ≡ true) × (rows' ≡ insert id (change old) rows)

update_found-ok :
    {V : Type 0} (id : String) (is_older : V → Bool) (change : V → V) (rows : List (String × V))
    (o : Option V) {rows' : List (String × V)}
    → update_found id is_older change rows o ≡ ok rows'
    → Updated is_older change id rows o rows'
update_found-ok id is_older change rows none h = cc
update_found-ok id is_older change rows (some old) h =
    let (older, same) = if_ok (is_older old) _ concurrent_update h in (old, refl, older, same)

pub update_row-ok :
    {V : Type 0} (id : String) (is_older : V → Bool) (change : V → V) (rows : List (String × V))
    {rows' : List (String × V)}
    → update_row id is_older change rows ≡ ok rows'
    → Updated is_older change id rows (lookup id rows) rows'
update_row-ok id is_older change rows h = update_found-ok id is_older change rows (lookup id rows) h

found_row-ok :
    {V : Type 0} (is_owned : V → Bool) (o : Option V) {v : V}
    → found_row is_owned o ≡ ok v
    → (o ≡ some v) × (is_owned v ≡ true)
found_row-ok is_owned none h = cc
found_row-ok is_owned (some w) h =
    let (owned, same) = if_ok (is_owned w) w not_found h in
    (ap some (sym same), ap is_owned same ∙ owned)

pub find_row-ok :
    {V : Type 0} (id : String) (is_owned : V → Bool) (rows : List (String × V)) {v : V}
    → find_row id is_owned rows ≡ ok v
    → (lookup id rows ≡ some v) × (is_owned v ≡ true)
find_row-ok id is_owned rows h = found_row-ok is_owned (lookup id rows) h
