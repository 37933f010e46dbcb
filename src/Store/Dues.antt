-- ===== src/Store/Dues.antt =====
-- internal/infrastructure/postgres/receivable_repository.go. The rows of a query come in the order
-- that its `ORDER BY` asks of the database: `sorted` stands for that order.
pub mod Effects
use adquirente.Base.{
  ℕ, zero, suc, Bool, true, false, not, ◌&&◌, ◌||◌, String, str_eq, Option, none, some, List, [],
  ◌∷◌, ◌++◌, map, ◌==◌, ltb, if◌then◌else◌,
}
use adquirente.Base.Int.{ltb_ℤ}
use adquirente.Shared.Error.{Result, ok, err}
use adquirente.Shared.Time.{Time, date_only}
use adquirente.Receivable as Due
use adquirente.Receivable.{Receivable, status_eq, scheduled, anticipated}
use adquirente.Store.{Database, Action, statement, pure, ◌>>=◌}
use adquirente.Store.Rows.{insert_in, update_in}

abbrev pub receivables_of : Database → List (String × Receivable)
receivables_of db = db.receivables

abbrev pub with_receivables : List (String × Receivable) → Database → Database
with_receivables rows db = record db { receivables = rows }

abbrev pub insert_one : Receivable → Action (Unit {0})
insert_one r = insert_in receivables_of with_receivables r.id r

unfoldable pub save_all : List Receivable → Action (Unit {0})
save_all [] = pure tt
save_all (r ∷ rs) = insert_one r >>= λ _. save_all rs

-- The columns that `UpdateAll` sets.
abbrev pub set_columns : Receivable → Receivable → Receivable
set_columns r old = record old {
  status = r.status;
  settlement_id = r.settlement_id;
  anticipation_id = r.anticipation_id;
  version = r.version;
  updated_at = r.updated_at;
}

abbrev pub update_one : Receivable → Action (Unit {0})
update_one r =
    update_in receivables_of with_receivables r.id (λ old. ltb_ℤ old.version r.version)
      (set_columns r)

unfoldable pub update_all : List Receivable → Action (Unit {0})
update_all [] = pure tt
update_all (r ∷ rs) = update_one r >>= λ _. update_all rs

-- `WHERE`: the rows that pass a test.
abbrev pub where_rows : (Receivable → Bool) → List (String × Receivable) → List Receivable
where_rows test [] = []
where_rows test ((id, r) ∷ rows) = if test r then r ∷ where_rows test rows else where_rows test rows

-- `LIMIT`
abbrev pub limited : ℕ → List Receivable → List Receivable
limited zero rs = []
limited (suc n) [] = []
limited (suc n) (r ∷ rs) = r ∷ limited n rs

-- A query on the receivables.
unfoldable pub query :
    (List Receivable → List Receivable) → (Receivable → Bool) → Action (List Receivable)
query sorted test = statement λ db. ok (sorted (where_rows test db.receivables), db)

unfoldable pub list_by_transaction :
    (List Receivable → List Receivable) → String → Action (List Receivable)
list_by_transaction sorted transaction_id =
    query sorted (λ r. str_eq r.transaction_id transaction_id)

abbrev pub is_due_on : Time → Receivable → Bool
is_due_on day r =
    r.due_date == date_only day && (status_eq r.status scheduled || status_eq r.status anticipated)

unfoldable pub list_due_on :
    (List Receivable → List Receivable) → Time → ℕ → Action (List Receivable)
list_due_on sorted day limit = query (λ rs. limited limit (sorted rs)) (is_due_on day)

abbrev pub is_listed : String → List String → Bool
is_listed id [] = false
is_listed id (x ∷ xs) = str_eq x id || is_listed id xs

-- `FindByIDs` and `FindForUpdate`, which differ in their order and in the lock.
unfoldable pub find_by_ids :
    (List Receivable → List Receivable) → String → List String → Action (List Receivable)
find_by_ids sorted merchant_id ids =
    query sorted (λ r. str_eq r.merchant_id merchant_id && is_listed r.id ids)

-- `ListFilter`; `none` is the zero value of a field, which is no condition.
pub record ListFilter : Type 0 where
  pub status : Option Due.Status
  pub from : Option Time
  pub to : Option Time
  pub limit : ℕ

abbrev pub has_status : Option Due.Status → Receivable → Bool
has_status none r = true
has_status (some s) r = status_eq r.status s

abbrev pub is_from : Option Time → Receivable → Bool
is_from none r = true
is_from (some t) r = not (ltb r.due_date (date_only t))

abbrev pub is_until : Option Time → Receivable → Bool
is_until none r = true
is_until (some t) r = not (ltb (date_only t) r.due_date)

unfoldable pub list_by_merchant :
    (List Receivable → List Receivable) → String → ListFilter → Action (List Receivable)
list_by_merchant sorted merchant_id f =
    query (λ rs. limited f.limit (sorted rs))
      (λ r.
        str_eq r.merchant_id merchant_id
        && (has_status f.status r && (is_from f.from r && is_until f.to r)))
