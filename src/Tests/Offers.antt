-- ===== src/Tests/Offers.antt =====
-- An example for the sale of a receivable.
use adquirente.Base.{[], ◌∷◌}
use adquirente.Base.Int.{pos}
use adquirente.Shared.Error.{ok}
use adquirente.Shared.Time.{add_days}
use adquirente.Store.{World}
use adquirente.Store.Laws.{AllOrNothing}
use adquirente.Application.Anticipate.{Anticipator, request}
use adquirente.Application.Anticipate.Request.{Requested, request-Requested}
use adquirente.Tests.Data.{monday, numbered, first_due}
use adquirente.Tests.UseCases.{start}

-- A month before the receivable falls due.
abbrev early : World
early = record start {
  database = record start.database {
    receivables = ("rcv_1", record first_due { due_date = add_days monday 30 }) ∷ [];
  };
}

abbrev anticipator : Anticipator
anticipator = record {
  liens_of = λ merchant_id day. ok [];
  pricer = λ net days rate. pos 4000;
  now = monday;
  anticipation_id = "ant_1";
  event_id = "ev_2";
  entry_id = numbered;
  by_due_date = λ rs. rs;
  by_id = λ rs. rs;
}

request-Requested_example :
    AllOrNothing
      (Requested anticipator "m_1" ("rcv_1" ∷ []))
      early
      (request anticipator "m_1" ("rcv_1" ∷ []) early)
request-Requested_example = request-Requested anticipator "m_1" ("rcv_1" ∷ []) early
