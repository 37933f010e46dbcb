-- ===== src/Tests/Requests.antt =====
-- Examples for requests that carry an idempotency key.
use adquirente.Base.{◌≡◌, refl, false, none, some, [], ◌∷◌}
use adquirente.Base.Assoc.{lookup}
use adquirente.Store.{World, KeyRow}
use adquirente.Store.Laws.{plain}
use adquirente.Store.Keys.{key_eq, idempotency_key, keys_of}
use adquirente.Application.Idempotency.{Request, Response, Handler, key_of, serve}
use adquirente.Application.Idempotency.Replay.{
  IsWellFormed, AnswersFromRow, serve-AnswersFromRow, Replays, serve-Replays, pending_row, reserved,
}
use adquirente.Tests.Data.{monday}
use adquirente.Tests.UseCases.{start}

abbrev request : Request
request = record {
  merchant_id = "m_1";
  key = "k_1";
  key_length = 3;
  body = some "{}";
  hash = "h_1";
}

abbrev created : Response
created = record { status = 201; body = "tx_2"; replayed = false }

abbrev creates : Handler
creates r w = (created, w)

-- Another request holds the key, with another body.
abbrev taken_row : KeyRow
taken_row = record { request_hash = "h_2"; expires_at = monday; response = none }

abbrev taken : World
taken = record start {
  database = record start.database { idempotency_keys = (("m_1", "k_1"), taken_row) ∷ [] };
}

request-IsWellFormed : IsWellFormed request "{}"
request-IsWellFormed = (refl, refl)

key_taken : lookup (key_of request) (keys_of taken.database) ≡ some taken_row
unfolding key_eq
key_taken = refl

serve-AnswersFromRow_example :
    AnswersFromRow "h_1" taken_row taken (serve creates monday request taken)
serve-AnswersFromRow_example =
    serve-AnswersFromRow creates monday request "{}" taken taken_row request-IsWellFormed key_taken

row_left :
    lookup (key_of request) (keys_of (reserved request monday start).database)
    ≡ some (pending_row request monday)
unfolding key_eq
row_left = refl

serve-Replays_example :
    Replays created
      (serve creates monday request (plain start))
      (serve creates monday request (plain start)).1
      (serve creates monday request (serve creates monday request (plain start)).1)
serve-Replays_example =
    serve-Replays creates creates monday monday request "{}" start (reserved request monday start)
      (serve creates monday request (plain start)).1 created request-IsWellFormed refl refl row_left
      refl refl
