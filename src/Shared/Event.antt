-- ===== src/Shared/Event.antt =====
-- internal/domain/shared/event.go: what every domain event carries. The identifier is the one that
-- `NewID("evt")` draws, so it is an argument.
use adquirente.Base.{ℕ, String}
use adquirente.Shared.Time.{Time}

pub record BaseEvent : Type 0 where
  pub id : String
  pub event_type : String
  pub occurred_at : Time
  pub aggregate : String
  pub version : ℕ

abbrev pub new_base_event : String → String → String → Time → BaseEvent
new_base_event id event_type aggregate at = record {
  id = id;
  event_type = event_type;
  occurred_at = at;
  aggregate = aggregate;
  version = 1;
}
