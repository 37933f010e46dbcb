-- ===== src/Tests/Webhooks.antt =====
-- Examples for the notification: the merchant of the examples has no URL, another one has.
use adquirente.Base.{◌≡◌, refl, String, none, some, [], ◌∷◌, str_eq, true, false, eq_iff}
use adquirente.Base.Texts.{codes}
use adquirente.Shared.Error.{err, external}
use adquirente.Store.{World}
use adquirente.Messaging.{Message, Writer}
use adquirente.Messaging.Consumer.{Consumer, process}
use adquirente.Application.Notification.{Notifier, notify}
use adquirente.Application.Notification.Posts.{Notifies, notify-Notifies}
use adquirente.Application.Notification.Retries.{AsksAtMost, process-AsksAtMost}
use adquirente.Tests.Data.{shop}
use adquirente.Tests.UseCases.{start}

abbrev open_to_events : World
open_to_events = record start {
  database = record start.database {
    merchants = ("m_1", record shop { webhook_url = codes "https://loja.example/eventos" }) ∷ [];
  };
}

-- The server of the merchant never accepts.
abbrev notifier : Notifier (Unit {0})
notifier = record {
  envelope_of = λ p. some (record { event_id = "ev_1"; merchant_id = "m_1" });
  mac = λ p. "0a1b";
  mac_equal = str_eq;
  send = λ url p headers. err (external "EC respondeu 500");
}

equal_to_itself : (s : String) → str_eq s s ≡ true
equal_to_itself s = (eq_iff s s).1 refl

notify-Notifies_example :
    Notifies notifier "settlement.completed" tt open_to_events
      (notify notifier "settlement.completed" tt open_to_events)
notify-Notifies_example =
    notify-Notifies notifier "settlement.completed" tt equal_to_itself open_to_events

abbrev letters_writer : Writer (Unit {0})
letters_writer = record { write_error = λ m. none; is_stored = λ m. true }

abbrev consumer : Consumer (Unit {0})
consumer = record {
  handler = notify notifier;
  dlq = letters_writer;
  error_text = λ e. "erro";
  is_done = λ k. false;
}

abbrev message : Message (Unit {0})
message = record { topic = "settlement.completed"; key = "st_1"; value = tt; headers = [] }

process-AsksAtMost_example :
    AsksAtMost 5 open_to_events (process consumer message (open_to_events, [])).0
process-AsksAtMost_example =
    process-AsksAtMost consumer notifier equal_to_itself refl message open_to_events []
