-- ===== src/Application/Idempotency/Replay.antt =====
-- What a key that was used answers.
use mathlib.Core.Path.{subst}
use mathlib.Core.List.{Memᴰ}
use mathlib.Core.List.Memᴰ.{head, tail}
use adquirente.Base.{
  ℕ, ◌≡◌, refl, sym, ap, ◌∙◌, ◌⊎◌, inl, inr, Bool, true, false, not, ◌||◌, String, str_eq, eq_iff,
  Option, none, some, List, [], ◌∷◌, ltb, if◌then◌else◌,
}
use adquirente.Base.Assoc.{lookup, insert, lookup-insert}
use adquirente.Shared.Error.{Error, Result, ok, err}
use adquirente.Shared.Time.{Time}
use adquirente.Store.{Database, World, Action, KeyRow, statement, answered, continue_with}
use adquirente.Store.Tables.{ok_injective}
use adquirente.Store.Laws.{plain, SameRest}
use adquirente.Store.Keys.{
  Key, key_eq_iff, idempotency_key, IdempotencyResult, new_request, replay, conflict, in_progress,
  keys_of, with_keys, stored_answer, response_of, begin_key, complete_key, after_reserve,
}
use adquirente.Application.Idempotency.{
  Request, Response, Handler, key_of, problem, ended, with_state, serve,
}

-- A request that reaches the store.
abbrev pub IsWellFormed : Request → String → Type 0
IsWellFormed r body = ((str_eq r.key "" || ltb 128 r.key_length) ≡ false) × (r.body ≡ some body)

-- The row that is written for a request before it runs.
abbrev pub pending_row : Request → Time → KeyRow
pending_row r expires_at = record {
  request_hash = r.hash;
  expires_at = expires_at;
  response = none;
}

-- The world in which the handler runs.
abbrev pub reserved : Request → Time → World → World
reserved r expires_at w = record w {
  database =
      with_keys (insert (key_of r) (pending_row r expires_at) (keys_of w.database)) w.database;
}

serve-begin_key :
    (handler : Handler) (expires_at : Time) (r : Request) (body : String) (w : World)
    → IsWellFormed r body
    → serve handler expires_at r w ≡ with_state handler r (begin_key (key_of r) r.hash expires_at w)
unfolding serve
serve-begin_key handler expires_at r body w (good, readable) = rw (good, readable) refl

begin_new :
    (r : Request) (expires_at : Time) (w : World)
    → lookup (key_of r) (keys_of w.database) ≡ none
    → begin_key (key_of r) r.hash expires_at (plain w)
      ≡ (ok new_request, reserved r expires_at (plain w))
unfolding begin_key statement
begin_new r expires_at w h = rw h refl

-- The database will report an error.
abbrev pub Fails : World → Type 0
Fails w = (e : Error) × Memᴰ (some e) w.faults

-- The faults that are left are some of those that there were.
abbrev Remain : World → World → Type 0
Remain w v = (o : Option Error) → Memᴰ o v.faults → Memᴰ o w.faults

-- A statement that reads: its value, or an error that the database reports, and the same tables.
abbrev Quiet : {A : Type 0} → A → World → Result A × World → Type 0
Quiet a w (r, v) =
    ((r ≡ ok a) ⊎ (((e : Error) × (r ≡ err e)) × Fails w))
    × (v.database ≡ w.database)
    × SameRest w v
    × Remain w v

answered-Quiet :
    {A : Type 0} (a : A) (w : World) (faults : List (Option Error))
    → w.faults ≡ faults
    → Quiet a w (answered (ok (a, w.database)) w faults)
answered-Quiet a w [] script = (inl refl, refl, (refl, refl), λ o m. m)
answered-Quiet a w (none ∷ faults) script =
    (inl refl, refl, (refl, refl), λ o m. subst (Memᴰ o) (sym script) (tail m))
answered-Quiet a w (some e ∷ faults) script = (
  inr ((e, refl), (e, subst (Memᴰ (some e)) (sym script) (head refl))),
  refl,
  (refl, refl),
  λ o m. subst (Memᴰ o) (sym script) (tail m),
)

statement-Quiet :
    {A : Type 0} (f : Database → Result (A × Database)) (a : A) (w : World)
    → f w.database ≡ ok (a, w.database)
    → Quiet a w (statement f w)
unfolding statement
statement-Quiet f a w h =
    subst (λ r. Quiet a w (answered r w w.faults)) (sym h) (answered-Quiet a w w.faults refl)

Quiet-then :
    {A B : Type 0} (a : A) (b : B) (w : World) (p : Result A × World) (next : A → Action B)
    → Quiet a w p
    → ((v : World) → v.database ≡ w.database → Quiet b v (next a v))
    → Quiet b w (continue_with next p)
Quiet-then a b w (ok x, v) next (inl e, d, (n, c), left) k =
    let (value, d', (n', c'), left') =
      subst (λ y. Quiet b v (next y v)) (sym (ok_injective e)) (k v d) in
    (
      elim value [ inl h ↦ inl h | inr (failed, (y, m)) ↦ inr (failed, (y, left (some y) m)) ],
      d' ∙ d,
      (n' ∙ n, c' ∙ c),
      λ o m. left o (left' o m),
    )
Quiet-then a b w (ok x, v) next (inr ((e, h), fails), d, same, left) k = absurd cc
Quiet-then a b w (err x, v) next (inl e, d, same, left) k = absurd cc
Quiet-then a b w (err x, v) next (inr ((e, h), fails), d, same, left) k =
    (inr ((x, refl), fails), d, same, left)

begin_known :
    (r : Request) (expires_at : Time) (w : World) (row : KeyRow)
    → lookup (key_of r) (keys_of w.database) ≡ some row
    → Quiet (stored_answer r.hash (some row)) w (begin_key (key_of r) r.hash expires_at w)
unfolding begin_key
begin_known r expires_at w row h =
    Quiet-then false (stored_answer r.hash (some row)) w _ (after_reserve (key_of r) r.hash)
      (statement-Quiet _ false w (rw h refl))
      λ v same.
        statement-Quiet _ (stored_answer r.hash (some row)) v
          (rw (ap (λ db. lookup (key_of r) (keys_of db)) same ∙ h) refl)

-- The response for a key that has a row.
abbrev answer_for : IdempotencyResult → Response
answer_for new_request = problem 503 "IDEMPOTENCY_UNAVAILABLE"
answer_for (replay status body) = record { status = status; body = body; replayed = true }
answer_for conflict = problem 409 "IDEMPOTENCY_KEY_REUSED"
answer_for in_progress = problem 409 "REQUEST_IN_PROGRESS"

abbrev pub known_answer : String → KeyRow → Response
known_answer hash row = answer_for (stored_answer hash (some row))

-- The handler did not run: an answer from the row, or 503 when the database reports an error, and
-- nothing changed.
abbrev pub AnswersFromRow : String → KeyRow → World → Response × World → Type 0
AnswersFromRow hash row w (response, v) =
    ((response ≡ known_answer hash row)
      ⊎ ((response ≡ problem 503 "IDEMPOTENCY_UNAVAILABLE") × Fails w))
    × (v.database ≡ w.database)
    × SameRest w v

abbrev is_new : IdempotencyResult → Bool
is_new new_request = true
is_new (replay status body) = false
is_new conflict = false
is_new in_progress = false

row_not_new :
    (differs : Bool) (o : Option (ℕ × String))
    → is_new (if differs then conflict else response_of o) ≡ false
row_not_new true o = refl
row_not_new false none = refl
row_not_new false (some (status, body)) = refl

with_state_known :
    (handler : Handler) (r : Request) (a : IdempotencyResult) (v : World)
    → is_new a ≡ false
    → with_state handler r (ok a, v) ≡ (answer_for a, v)
with_state_known handler r new_request v h = absurd cc
with_state_known handler r (replay status body) v h = refl
with_state_known handler r conflict v h = refl
with_state_known handler r in_progress v h = refl

with_state-AnswersFromRow :
    (handler : Handler) (r : Request) (hash : String) (row : KeyRow) (w : World)
    (p : Result IdempotencyResult × World)
    → Quiet (stored_answer hash (some row)) w p
    → AnswersFromRow hash row w (with_state handler r p)
with_state-AnswersFromRow handler r hash row w (err e, v) (inl h, tables, same, left) = absurd cc
with_state-AnswersFromRow handler r hash row w (err e, v)
      (inr (failed, fails), tables, same, left) =
    (inr (refl, fails), tables, same)
with_state-AnswersFromRow handler r hash row w (ok x, v) (inr ((e, h), fails), tables, same, left) =
    absurd cc
with_state-AnswersFromRow handler r hash row w (ok x, v) (inl h, tables, same, left) =
    subst (AnswersFromRow hash row w)
      (sym (
        ap (λ y. with_state handler r (ok y, v)) (ok_injective h)
        ∙ with_state_known handler r (stored_answer hash (some row)) v
            (row_not_new (not (str_eq row.request_hash hash)) row.response)))
      (inl refl, tables, same)

-- A request whose key has a row is answered from that row, by the stored response, by 409 if its hash
-- differs or the first request has no response yet, or by 503, which takes an error of the database;
-- the handlers do not run, whatever they are: no table changes, and no service is called.
pub serve-AnswersFromRow :
    (handler : Handler) (expires_at : Time) (r : Request) (body : String) (w : World) (row : KeyRow)
    → IsWellFormed r body
    → lookup (key_of r) (keys_of w.database) ≡ some row
    → AnswersFromRow r.hash row w (serve handler expires_at r w)
serve-AnswersFromRow handler expires_at r body w row good known =
    subst (AnswersFromRow r.hash row w) (sym (serve-begin_key handler expires_at r body w good))
      (with_state-AnswersFromRow handler r r.hash row w _ (begin_known r expires_at w row known))

-- The row once the request has its response.
abbrev pub answered_row : Request → Time → Response → KeyRow
answered_row r expires_at response = record (pending_row r expires_at) {
  response = some (response.status, response.body);
}

-- The first request: the key is new, the handlers run once, and their response is stored.
serve_first :
    (handler : Handler) (expires_at : Time) (r : Request) (body : String) (w w1 : World)
    (response : Response)
    → IsWellFormed r body
    → lookup (key_of r) (keys_of w.database) ≡ none
    → handler r (reserved r expires_at (plain w)) ≡ (response, plain w1)
    → ltb 499 response.status ≡ false
    → serve handler expires_at r (plain w)
      ≡ (response, (complete_key (key_of r) response.status response.body (plain w1)).1)
serve_first handler expires_at r body w w1 response good fresh ran fine =
    serve-begin_key handler expires_at r body (plain w) good
    ∙ ap (with_state handler r) (begin_new r expires_at w fresh)
    ∙ ap (ended r) ran
    ∙ rw fine refl

lookup_again :
    (k : Key) (row : KeyRow) (rows : List (Key × KeyRow)) → lookup k (insert k row rows) ≡ some row
lookup_again k row rows = lookup-insert k k row rows ∙ rw ((key_eq_iff k k).1 refl) refl

completed :
    (r : Request) (expires_at : Time) (w : World) (response : Response)
    → lookup (key_of r) (keys_of w.database) ≡ some (pending_row r expires_at)
    → lookup
        (key_of r)
        (keys_of (complete_key (key_of r) response.status response.body (plain w)).1.database)
      ≡ some (answered_row r expires_at response)
unfolding complete_key statement
completed r expires_at w response h =
    rw h (lookup_again (key_of r) (answered_row r expires_at response) (keys_of w.database))

-- The response as it is repeated.
abbrev pub repeated : Response → Response
repeated response = record response { replayed = true }

known_answer_same :
    (r : Request) (expires_at : Time) (response : Response)
    → known_answer r.hash (answered_row r expires_at response) ≡ repeated response
known_answer_same r expires_at response = rw ((eq_iff r.hash r.hash).1 refl) refl

-- Both sendings of a request.
abbrev pub Replays : Response → Response × World → World → Response × World → Type 0
Replays response (first, w) v (second, v') =
    (first ≡ response)
    × ((second ≡ repeated response) ⊎ ((second ≡ problem 503 "IDEMPOTENCY_UNAVAILABLE") × Fails v))
    × (v'.database ≡ v.database)
    × SameRest v v'

-- A request with a new key, whose handlers leave the row of the key alone and respond with a status
-- below 500, is answered by that response; when it is sent again, at any time and to any handlers, on
-- the tables that it left, the same status and body are sent again, or 503, which takes an error of
-- the database, and the handlers do not run. The first sending meets no failure of the store.
pub serve-Replays :
    (handler again : Handler) (expires_at later : Time) (r : Request) (body : String)
    (w w1 v : World) (response : Response)
    → IsWellFormed r body
    → lookup (key_of r) (keys_of w.database) ≡ none
    → handler r (reserved r expires_at (plain w)) ≡ (response, plain w1)
    → lookup (key_of r) (keys_of w1.database) ≡ some (pending_row r expires_at)
    → ltb 499 response.status ≡ false
    → v.database ≡ (serve handler expires_at r (plain w)).1.database
    → Replays response (serve handler expires_at r (plain w)) v (serve again later r v)
serve-Replays handler again expires_at later r body w w1 v response good fresh ran row fine tables =
    let first = serve_first handler expires_at r body w w1 response good fresh ran fine in
    let stored = completed r expires_at w1 response row in
    let known =
      ap (λ db. lookup (key_of r) (keys_of db)) (tables ∙ ap (λ p. p.1.database) first) ∙ stored in
    let (answer, kept_tables, same) =
      serve-AnswersFromRow again later r body v (answered_row r expires_at response) good known in
    (
      ap (λ p. p.0) first,
      subst
          (λ x.
            ((serve again later r v).0 ≡ x)
            ⊎ (((serve again later r v).0 ≡ problem 503 "IDEMPOTENCY_UNAVAILABLE") × Fails v))
          (known_answer_same r expires_at response) answer,
      kept_tables,
      same,
    )
