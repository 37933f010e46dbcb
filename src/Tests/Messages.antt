-- ===== src/Tests/Messages.antt =====
-- Examples for the relay and the consumer: three rows, the first of them published, and a broker that
-- refuses one message.
use adquirente.Base.{
  ℕ, ◌≤◌, ◌≡◌, refl, ap, Bool, true, false, not, str_eq, String, none, some, List, [], ◌∷◌, ◌++◌,
  ◌⊎◌, arith, if◌then◌else◌,
}
use adquirente.Shared.Error.{Error, external, ok}
use adquirente.Store.{World}
use adquirente.Messaging.Consumer.{Consumer, event_type_of, process}
use adquirente.Messaging.Consumer.Attempts.{Tries}
use adquirente.Messaging.Consumer.Letters.{run, EndsAt, process-Ends}
use adquirente.Application.History.Reach as Run
use adquirente.Messaging.Consumer.Once.{Leaves, process-ActsOnce}
use adquirente.Application.Scheduling.{handle}
use adquirente.Tests.UseCases.{start, scheduler}
use adquirente.Messaging.{OutboxRow, Message, Writer, IsAcknowledged}
use adquirente.Messaging.Relay.{message_of, Broker, Round, publish_batch, drain}
use adquirente.Messaging.Relay.Order.{Ascending}
use adquirente.Messaging.Relay.Queue.{Dequeues, publish_batch-Dequeues}
use adquirente.Messaging.Relay.Drain.{IsClean, Empties, drain-Empties}
use adquirente.Messaging.Relay.Delivery.{
  row_added, round_ran, Reaches, begins, later, IsSound, Reaches-IsSound,
}
use mathlib.Core.List.{Memᴰ}
use mathlib.Core.List.Memᴰ.{head, tail}

abbrev row : ℕ → String → Bool → OutboxRow (Unit {0})
row id event_id published = record {
  id = id;
  event_id = event_id;
  aggregate_id = "tx_1";
  event_type = "transaction.captured";
  payload = tt;
  is_published = published;
}

abbrev captured_message : String → Message (Unit {0})
captured_message event_id = message_of (row 0 event_id true)

abbrev broker : Broker (Unit {0})
broker = record {
  rows = row 1 "ev_1" true ∷ row 2 "ev_2" false ∷ row 4 "ev_4" false ∷ [];
  log = captured_message "ev_1" ∷ [];
}

abbrev ids_ascend : Ascending broker.rows
ids_ascend = ((omega arith, (omega arith, tt)), ((omega arith, tt), (tt, tt)))

-- The message of ev_4 is refused, and not stored.
abbrev is_ev_4 : Message (Unit {0}) → Bool
is_ev_4 m = elim m.headers [ [] ↦ false | (k, v) ∷ hs ↦ str_eq v "ev_4" ]

abbrev picky : Writer (Unit {0})
picky = record {
  write_error = λ m. if is_ev_4 m then some (external "no leader") else none;
  is_stored = λ m. not (is_ev_4 m);
}

abbrev willing : Writer (Unit {0})
willing = record { write_error = λ m. none; is_stored = λ m. true }

abbrev round_with : Writer (Unit {0}) → Round (Unit {0})
round_with wr = record {
  writer = wr;
  is_locked = λ id. false;
  begin_error = none;
  select_error = none;
  delivered = 10;
  update_error = none;
  commit_error = none;
}

refused_or_stored :
    (b : Bool) → (if b then some (external "no leader") else none) ≡ none → not b ≡ true
refused_or_stored true h = absurd cc
refused_or_stored false h = refl

picky-IsAcknowledged : IsAcknowledged picky
picky-IsAcknowledged m h = refused_or_stored (is_ev_4 m) h

publish_batch-Dequeues_example : Dequeues 10 broker (publish_batch (round_with picky) 10 broker)
publish_batch-Dequeues_example =
    publish_batch-Dequeues (round_with picky) 10 broker picky-IsAcknowledged (λ id. refl) ids_ascend

abbrev clean : IsClean 1 (round_with willing)
clean = (refl, refl, refl, refl, omega arith, (λ id. refl), (λ m h. refl), λ m. refl)

drain-Empties_example : Empties broker (drain (λ k. round_with willing) 1 3 0 broker)
drain-Empties_example =
    drain-Empties (λ k. round_with willing) 0 3 0 broker (λ j. clean) ids_ascend (omega arith)

abbrev grown : Broker (Unit {0})
grown = record broker {
  rows = row 1 "ev_1" true ∷ row 2 "ev_2" false ∷ row 3 "ev_3" false ∷ row 4 "ev_4" false ∷ [];
}

abbrev history : Reaches broker (publish_batch (round_with picky) 10 grown).1
history =
    later (later (begins broker) (row_added (row 3 "ev_3" false) broker refl))
      (round_ran (round_with picky) 10 grown picky-IsAcknowledged)

first_delivered :
    (x : OutboxRow (Unit {0}))
    → Memᴰ x broker.rows
    → x.is_published ≡ true
    → Memᴰ (message_of x) broker.log
first_delivered x (head e) h = head (ap message_of e)
first_delivered x (tail (head e)) h = absurd (cc (ap (λ v. v.is_published) e, h))
first_delivered x (tail (tail (head e))) h = absurd (cc (ap (λ v. v.is_published) e, h))
first_delivered x (tail (tail (tail m))) h = elim m [ ]

abbrev sound : IsSound broker
sound = (ids_ascend, first_delivered)

Reaches-IsSound_example :
    IsSound (publish_batch (round_with picky) 10 grown).1
    × ((more : List (Message (Unit {0}))) × ((publish_batch (round_with picky) 10 grown).1.log
          ≡ broker.log ++ more))
Reaches-IsSound_example = Reaches-IsSound history sound

-- The consumer of the schedules, with a message of the topic of cancellations.
abbrev consumer : Consumer (Unit {0})
consumer = record {
  handler = handle scheduler;
  dlq = willing;
  error_text = λ e. "erro";
  is_done = λ k. false;
}

abbrev cancellation : Message (Unit {0})
cancellation = record { topic = "transaction.canceled"; key = "tx_1"; value = tt; headers = [] }

process-Ends_example :
    (n : ℕ) × (n ≤ 4)
    × (v : World) × Tries (run consumer cancellation) n start v
    × EndsAt consumer cancellation n v [] (process consumer cancellation (start, []))
process-Ends_example = process-Ends consumer cancellation start []

process-ActsOnce_example :
    Leaves consumer cancellation
      (handle scheduler (event_type_of cancellation) tt)
      start
      (process consumer cancellation (start, [])).0
    ⊎ ((v : World) × (v.database ≡ start.database)
        × (handle scheduler (event_type_of cancellation) tt v
            ≡ (ok tt, (process consumer cancellation (start, [])).0))
        × ((x y : World) (more : List (Message (Unit {0})))
            → Run.Reaches (Unit {0}) (process consumer cancellation (start, [])).0 y
            → x.database ≡ y.database
            → (process consumer cancellation (x, more)).0.database ≡ x.database))
process-ActsOnce_example = process-ActsOnce consumer cancellation scheduler refl start []
