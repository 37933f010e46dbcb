-- ===== src/Application/Idempotency.antt =====
-- internal/handler/http/middleware/idempotency.go: a request that is sent again is answered again,
-- and acted on once. The rest of the chain of handlers is a parameter.
pub mod Replay
use adquirente.Base.{
  ℕ, Bool, true, false, ◌||◌, String, str_eq, Option, none, some, List, [], ◌∷◌, ltb, if◌then◌else◌,
}
use adquirente.Shared.Error.{Result, ok, err}
use adquirente.Shared.Time.{Time}
use adquirente.Store.{World}
use adquirente.Store.Keys.{
  Key, IdempotencyResult, new_request, replay, conflict, in_progress, begin_key, complete_key,
  abandon_key,
}

-- What the middleware reads of a request: `key_length` is the length of the header in bytes, `hash`
-- the SHA-256 of the method, the path and the body, and `body` is none when it can not be read.
pub record Request : Type 0 where
  pub merchant_id : String
  pub key : String
  pub key_length : ℕ
  pub body : Option String
  pub hash : String

pub record Response : Type 0 where
  pub status : ℕ
  pub body : String
  pub replayed : Bool

abbrev pub key_of : Request → Key
key_of r = (r.merchant_id, r.key)

-- `abortProblem`, whose body is told apart by its code.
abbrev pub problem : ℕ → String → Response
problem status code = record { status = status; body = code; replayed = false }

-- The handlers that `c.Next()` runs.
abbrev pub Handler : Type 0
Handler = Request → World → Response × World

-- After `c.Next()`: a server error frees the key, any other response is stored; an error of either
-- is only logged.
abbrev pub kept : Request → Bool → Response × World → Response × World
kept r true (response, w) = (response, (abandon_key (key_of r) w).1)
kept r false (response, w) = (response, (complete_key (key_of r) response.status response.body w).1)

abbrev pub ended : Request → Response × World → Response × World
ended r (response, w) = kept r (ltb 499 response.status) (response, w)

-- The switch on the state of the key.
abbrev pub with_state : Handler → Request → Result IdempotencyResult × World → Response × World
with_state handler r (err e, w) = (problem 503 "IDEMPOTENCY_UNAVAILABLE", w)
with_state handler r (ok (replay status body), w) =
    (record { status = status; body = body; replayed = true }, w)
with_state handler r (ok conflict, w) = (problem 409 "IDEMPOTENCY_KEY_REUSED", w)
with_state handler r (ok in_progress, w) = (problem 409 "REQUEST_IN_PROGRESS", w)
with_state handler r (ok new_request, w) = ended r (handler r w)

abbrev pub with_body : Handler → Time → Request → Option String → World → Response × World
with_body handler expires_at r none w = (problem 400 "INVALID_BODY", w)
with_body handler expires_at r (some body) w =
    with_state handler r (begin_key (key_of r) r.hash expires_at w)

unfoldable pub serve : Handler → Time → Request → World → Response × World
serve handler expires_at r w =
    if str_eq r.key "" || ltb 128 r.key_length
    then (problem 400 "IDEMPOTENCY_KEY_REQUIRED", w)
    else with_body handler expires_at r r.body w
