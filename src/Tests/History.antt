-- ===== src/Tests/History.antt =====
-- An example for the histories: a delivery, a dispute and a settlement, the last one with a failing
-- commit.
use adquirente.Base.{◌≡◌, refl, true}
use adquirente.Base.Int.{pos}
use adquirente.Ledger.{balanced, balanced_from}
use adquirente.Store.{World}
use adquirente.Application.Scheduling.{handle}
use adquirente.Application.Disputes as Dispute
use adquirente.Application.SettleDue as SettleDue
use adquirente.Application.History.{Grows}
use adquirente.Application.History.Reach.{
  delivered, disputed, settled, Reaches, begins, later, Reaches-balanced,
}
use adquirente.Tests.Data.{monday}
use adquirente.Tests.UseCases.{start, scheduler, dispute_draws}
use adquirente.Tests.PayDay.{settler}

abbrev after_delivery : World
after_delivery = (handle scheduler "transaction.canceled" tt start).1

abbrev after_dispute : World
after_dispute =
    (Dispute.execute dispute_draws "m_1" "tx_1" "10.4" (pos 10000) monday after_delivery).1

abbrev day_of_events : Reaches (Unit {0}) start (SettleDue.execute settler 2 monday after_dispute).1
day_of_events =
    later
      (later (later (begins start) (delivered scheduler "transaction.canceled" tt start))
        (disputed dispute_draws "m_1" "tx_1" "10.4" (pos 10000) monday after_delivery))
      (settled settler 2 monday after_dispute)

Reaches-balanced_example :
    (balanced (SettleDue.execute settler 2 monday after_dispute).1.database.ledger_entries ≡ true)
    × Grows start.database (SettleDue.execute settler 2 monday after_dispute).1.database
unfolding balanced balanced_from
Reaches-balanced_example = Reaches-balanced day_of_events refl
