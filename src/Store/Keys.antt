-- ===== src/Store/Keys.antt =====
-- internal/infrastructure/postgres/idempotency_store.go, and the answers that
-- internal/application/idempotency.go gives it.
use adquirente.Base.{
  ℕ, ◌↔◌, ◌≡◌, eq_iff, Bool, true, false, not, ◌&&◌, String, str_eq, Option, none, some, List, [],
  ◌∷◌, arith, if◌then◌else◌,
}
use adquirente.Base.Assoc.{Eq, lookup, insert}
use adquirente.Shared.Error.{ok}
use adquirente.Shared.Time.{Time}
use adquirente.Store.{Database, KeyRow, Action, statement, pure, ◌>>=◌}

-- The primary key: the merchant and the key that it sent.
abbrev pub Key : Type 0
Key = String × String

unfoldable pub key_eq : Key → Key → Bool
key_eq a b = str_eq a.0 b.0 && str_eq a.1 b.1

pub key_eq_iff : (a b : Key) → (key_eq a b ≡ true) ↔ (a ≡ b)
unfolding key_eq
key_eq_iff a b = ground (arith, eq_iff a.0 b.0, eq_iff a.1 b.1)

instance abbrev pub idempotency_key : Eq Key
idempotency_key = record { beq = key_eq; beq_iff = key_eq_iff }

pub data IdempotencyResult : Type 0 where
  new_request : IdempotencyResult
  replay : (status : ℕ) → (body : String) → IdempotencyResult
  conflict : IdempotencyResult
  in_progress : IdempotencyResult

abbrev pub keys_of : Database → List (Key × KeyRow)
keys_of db = db.idempotency_keys

abbrev pub with_keys : List (Key × KeyRow) → Database → Database
with_keys rows db = record db { idempotency_keys = rows }

-- `INSERT … ON CONFLICT DO NOTHING`: whether a row was inserted.
abbrev pub reserve : Key → KeyRow → Option KeyRow → Database → Bool × Database
reserve k row (some old) db = (false, db)
reserve k row none db = (true, with_keys (insert k row (keys_of db)) db)

abbrev pub response_of : Option (ℕ × String) → IdempotencyResult
response_of none = in_progress
response_of (some (status, body)) = replay status body

-- The row that was read, or none when it was deleted in between.
abbrev pub stored_answer : String → Option KeyRow → IdempotencyResult
stored_answer hash none = in_progress
stored_answer hash (some row) =
    if not (str_eq row.request_hash hash) then conflict else response_of row.response

abbrev pub after_reserve : Key → String → Bool → Action IdempotencyResult
after_reserve k hash true = pure new_request
after_reserve k hash false = statement λ db. ok (stored_answer hash (lookup k (keys_of db)), db)

-- `Begin`; `expires_at` is `time.Now().Add(ttl)`, which nothing reads again.
unfoldable pub begin_key : Key → String → Time → Action IdempotencyResult
begin_key k hash expires_at =
    statement (λ db. ok (
      reserve k (record { request_hash = hash; expires_at = expires_at; response = none })
        (lookup k (keys_of db)) db))
    >>= after_reserve k hash

-- `UPDATE … WHERE`, on the row that the key finds.
abbrev pub filled : Key → ℕ × String → Option KeyRow → List (Key × KeyRow) → List (Key × KeyRow)
filled k response none rows = rows
filled k response (some row) rows = insert k (record row { response = some response }) rows

unfoldable pub complete_key : Key → ℕ → String → Action (Unit {0})
complete_key k status body =
    statement
      λ db. ok (tt, with_keys (filled k (status, body) (lookup k (keys_of db)) (keys_of db)) db)

abbrev pub is_unanswered : Option (ℕ × String) → Bool
is_unanswered none = true
is_unanswered (some r) = false

-- `DELETE … WHERE … response_status IS NULL`
abbrev pub released : Key → List (Key × KeyRow) → List (Key × KeyRow)
released k [] = []
released k ((j, row) ∷ rows) =
    if key_eq j k && is_unanswered row.response then released k rows else (j, row) ∷ released k rows

unfoldable pub abandon_key : Key → Action (Unit {0})
abandon_key k = statement λ db. ok (tt, with_keys (released k (keys_of db)) db)
