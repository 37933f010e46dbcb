-- ===== src/Messaging.antt =====
-- internal/infrastructure/kafka: how an event gets from the outbox to its consumers. The payload is
-- bytes that only the consumers read, so its type is a parameter.
pub mod Relay
pub mod Consumer
use adquirente.Base.{
  ℕ, Bool, String, Option, none, some, true, ◌≡◌, List, [], ◌∷◌, ◌++◌, if◌then◌else◌,
}
use adquirente.Shared.Error.{Error}

-- A row of the table `outbox`; it is published once `published_at` is set.
pub record OutboxRow (Payload : Type 0) : Type 0 where
  pub id : ℕ
  pub event_id : String
  pub aggregate_id : String
  pub event_type : String
  pub payload : Payload
  pub is_published : Bool

-- What the code uses of `kafkago.Message`.
pub record Message (Payload : Type 0) : Type 0 where
  pub topic : String
  pub key : String
  pub value : Payload
  pub headers : List (String × String)

-- `Writer.WriteMessages`: the error that it reports, and whether the topic holds the message after it.
pub record Writer (Payload : Type 0) : Type 0 where
  pub write_error : Message Payload → Option Error
  pub is_stored : Message Payload → Bool

-- With `RequireAll`, a write that reports no error is on all the replicas. A write that reports one
-- may be stored or not.
abbrev pub IsAcknowledged : {Payload : Type 0} → Writer Payload → Type 0
IsAcknowledged {Payload} wr =
    (m : Message Payload) → wr.write_error m ≡ none → wr.is_stored m ≡ true

-- The topics after a write, oldest message first.
abbrev pub written :
    {Payload : Type 0}
    → Writer Payload
    → Message Payload
    → List (Message Payload)
    → List (Message Payload)
written wr m log = if wr.is_stored m then log ++ m ∷ [] else log
