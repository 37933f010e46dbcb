-- ===== src/Messaging/Consumer.antt =====
-- internal/infrastructure/kafka/consumer.go, and internal/application/errors.go. The messages of a
-- partition are handled one after the other.
pub mod Attempts
pub mod Letters
pub mod Once
use adquirente.Base.{
  ℕ, zero, suc, Bool, true, false, String, str_eq, Option, none, some, List, [], ◌∷◌, ◌++◌,
  if◌then◌else◌,
}
use adquirente.Base.Texts.{joined}
use adquirente.Shared.Error.{Error, permanent, Result, ok, err}
use adquirente.Store.{World, Action}
use adquirente.Messaging.{Message, Writer, written}

-- `application.IsPermanent`; the errors that wrap a permanent one are permanent ones here.
abbrev pub is_permanent : Error → Bool
is_permanent (permanent e) = true
is_permanent e = false

-- `header`: the first of that name.
abbrev pub first_header : List (String × String) → String → String
first_header [] key = ""
first_header ((k, v) ∷ hs) key = if str_eq k key then v else first_header hs key

abbrev pub event_type_of : {Payload : Type 0} → Message Payload → String
event_type_of msg =
    let named = first_header msg.headers "event_type" in
    if str_eq named "" then msg.topic else named

-- How the attempts on a message end: it was handled; the context was done while the code waited for
-- the next attempt; or the last error sends it to the dead letters.
pub data Ending : Type 0 where
  handled : Ending
  abandoned : Ending
  dead : Error → Ending

-- After one attempt, the k-th; `again` is the rest of the loop, and `is_done k` says whether the
-- context is done while the next attempt is waited for.
abbrev pub after_attempt :
    (ℕ → Bool) → ℕ → (Error → World → Ending × World) → Result (Unit {0}) × World → Ending × World
after_attempt is_done k again (ok u, w) = (handled, w)
after_attempt is_done k again (err e, w) =
    if is_permanent e then (dead e, w) else if is_done k then (abandoned, w) else again e w

-- The loop of `process`: `left` attempts may follow this one.
unfoldable pub attempt : Action (Unit {0}) → (ℕ → Bool) → ℕ → ℕ → World → Ending × World
attempt run is_done zero k w = after_attempt is_done k (λ e v. (dead e, v)) (run w)
attempt run is_done (suc left) k w =
    after_attempt is_done k (λ e v. attempt run is_done left (suc k) v) (run w)

-- What a consumer is given: the handler, the writer of the dead letters, and `Error()`.
pub record Consumer (Payload : Type 0) : Type 0 where
  pub handler : String → Payload → Action (Unit {0})
  pub dlq : Writer Payload
  pub error_text : Error → String
  pub is_done : ℕ → Bool

module _ {Payload : Type 0} where
  abbrev pub dead_message : Consumer Payload → Message Payload → Error → Message Payload
  dead_message c msg e = record msg {
    topic = joined msg.topic ".dlq";
    headers = msg.headers ++ ("error", c.error_text e) ∷ [];
  }

  -- The dead letters after the attempts; an error of this write is only logged.
  abbrev pub bury :
      Consumer Payload → Message Payload → Ending → List (Message Payload) → List (Message Payload)
  bury c msg handled letters = letters
  bury c msg abandoned letters = letters
  bury c msg (dead e) letters = written c.dlq (dead_message c msg e) letters

  -- `process`, with `maxAttempts` 5: the world that the handler acts on, and the dead letters.
  unfoldable pub process :
      Consumer Payload
      → Message Payload
      → World × List (Message Payload)
      → World × List (Message Payload)
  process c msg (w, letters) =
      let (ending, w') = attempt (c.handler (event_type_of msg) msg.value) c.is_done 4 1 w in
      (w', bury c msg ending letters)
