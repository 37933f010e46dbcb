-- ===== src/Messaging/Relay.antt =====
-- internal/infrastructure/kafka/relay.go. The rows of `outbox` stand in the order of their primary
-- key, which is the order that the query asks for.
pub mod Order
pub mod Sending
pub mod Queue
pub mod Delivery
pub mod Drain
use adquirente.Base.{
  ℕ, zero, suc, Bool, true, false, not, ◌&&◌, ◌||◌, ◌==◌, ltb, String, Option, none, some, List, [],
  ◌∷◌, ◌++◌, map, length, if◌then◌else◌,
}
use adquirente.Shared.Error.{Error}
use adquirente.Messaging.{OutboxRow, Message, Writer, written}

-- `id = ANY($1)`
abbrev pub any_is : ℕ → List ℕ → Bool
any_is k [] = false
any_is k (i ∷ ids) = i == k || any_is k ids

module _ {Payload : Type 0} where
  -- The topic is the type of the event and the key its aggregate.
  abbrev pub message_of : OutboxRow Payload → Message Payload
  message_of x = record {
    topic = x.event_type;
    key = x.aggregate_id;
    value = x.payload;
    headers = ("event_id", x.event_id) ∷ ("event_type", x.event_type) ∷ [];
  }

  -- `WHERE published_at IS NULL … FOR UPDATE SKIP LOCKED`
  abbrev pub where_free : (ℕ → Bool) → List (OutboxRow Payload) → List (OutboxRow Payload)
  where_free is_locked [] = []
  where_free is_locked (x ∷ xs) =
      if x.is_published || is_locked x.id
      then where_free is_locked xs
      else x ∷ where_free is_locked xs

  -- `LIMIT`
  abbrev pub limited : ℕ → List (OutboxRow Payload) → List (OutboxRow Payload)
  limited zero xs = []
  limited (suc n) [] = []
  limited (suc n) (x ∷ xs) = x ∷ limited n xs

  -- `SET published_at = now() WHERE id = ANY($1)`
  abbrev pub marked : List ℕ → OutboxRow Payload → OutboxRow Payload
  marked ids x = record x { is_published = any_is x.id ids || x.is_published }

  abbrev pub mark : List ℕ → List (OutboxRow Payload) → List (OutboxRow Payload)
  mark ids xs = map (marked ids) xs

  -- After the answer to one row: on with the others, or out of the loop.
  abbrev pub after_write :
      Option Error
      → ℕ
      → List ℕ × List (Message Payload)
      → List (Message Payload)
      → List ℕ × List (Message Payload)
  after_write none id (ids, last) log = (id ∷ ids, last)
  after_write (some e) id rest log = ([], log)

  -- The loop over the pending rows: the identifiers of the rows that were published, and the topics.
  unfoldable pub publish_rows :
      Writer Payload
      → List (OutboxRow Payload)
      → List (Message Payload)
      → List ℕ × List (Message Payload)
  publish_rows wr [] log = ([], log)
  publish_rows wr (x ∷ xs) log =
      let log' = written wr (message_of x) log in
      after_write (wr.write_error (message_of x)) x.id (publish_rows wr xs log') log'

-- The table and the topics.
pub record Broker (Payload : Type 0) : Type 0 where
  pub rows : List (OutboxRow Payload)
  pub log : List (Message Payload)

-- What a round meets: the broker, the rows that other transactions hold, how many rows the driver
-- delivers before it breaks off the read, which `Next` does not tell from its end, and the errors that
-- the driver reports; `select_error` is that of the query or of `Scan`.
pub record Round (Payload : Type 0) : Type 0 where
  pub writer : Writer Payload
  pub is_locked : ℕ → Bool
  pub begin_error : Option Error
  pub select_error : Option Error
  pub delivered : ℕ
  pub update_error : Option Error
  pub commit_error : Option Error

module _ {Payload : Type 0} where
  -- The loop over `rows.Next()`: `rows.Err()` is not asked for.
  abbrev pub pending : Round Payload → ℕ → Broker Payload → List (OutboxRow Payload)
  pending d batch b = limited d.delivered (limited batch (where_free d.is_locked b.rows))

  -- `tx.Commit()`: without it, the update is undone.
  abbrev pub commit : Option Error → List ℕ → Broker Payload → Broker Payload
  commit none ids b = record b { rows = mark ids b.rows }
  commit (some e) ids b = b

  abbrev pub mark_published :
      Round Payload → List ℕ → Broker Payload → (ℕ × Option Error) × Broker Payload
  mark_published d [] b = ((0, d.commit_error), b)
  mark_published d (i ∷ ids) b = elim d.update_error [
    | some e ↦ ((0, some e), b)
    | none ↦ ((length (i ∷ ids), d.commit_error), commit d.commit_error (i ∷ ids) b)
  ]

  abbrev pub publish_pending :
      Round Payload
      → List (OutboxRow Payload)
      → Broker Payload
      → (ℕ × Option Error) × Broker Payload
  publish_pending d [] b = ((0, none), b)
  publish_pending d (x ∷ xs) b =
      let (ids, log) = publish_rows d.writer (x ∷ xs) b.log in
      mark_published d ids (record b { log = log })

  unfoldable pub publish_batch :
      Round Payload → ℕ → Broker Payload → (ℕ × Option Error) × Broker Payload
  publish_batch d batch b = elim d.begin_error [
    | some e ↦ ((0, some e), b)
    | none ↦ elim d.select_error [
      | some e ↦ ((0, some e), b)
      | none ↦ publish_pending d (pending d batch b) b
    ]
  ]

  -- `Run` up to the round after which it waits: a full batch is followed by the next one at once. The
  -- k-th round meets what `ds k` says.
  unfoldable pub drain : (ℕ → Round Payload) → ℕ → ℕ → ℕ → Broker Payload → Option (Broker Payload)
  drain ds batch zero k b = none
  drain ds batch (suc fuel) k b =
      let ((n, e), b') = publish_batch (ds k) batch b in
      let rest = drain ds batch fuel (suc k) b' in if n == batch then rest else some b'

  -- A committed transaction added a row with the next number of its sequence. Transactions commit in
  -- any order, so the row goes to the place of its key, and a key that is there already is refused.
  abbrev pub add_row : OutboxRow Payload → List (OutboxRow Payload) → List (OutboxRow Payload)
  add_row x [] = x ∷ []
  add_row x (y ∷ ys) =
      if ltb x.id y.id then x ∷ y ∷ ys else if x.id == y.id then y ∷ ys else y ∷ add_row x ys
