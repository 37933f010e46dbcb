-- ===== src/Tests/Books.antt =====
-- Examples for anticipations, chargebacks and the ledger.
use adquirente.Base.{◌+◌, ◌≡◌, refl, List, [], ◌∷◌, ◌++◌, true, arith, All}
use adquirente.Base.Int.{pos}
use adquirente.Base.Int64.{sub64}
use adquirente.Shared.Error.{ok}
use adquirente.Shared.Time.{Time, add_days}
use adquirente.Receivable.{Receivable}
use adquirente.Anticipation.{Anticipation, Pricer, simulate, simulated}
use adquirente.Anticipation.Amounts.{IsOffered, Offers, simulate_iff}
use adquirente.Chargeback.{Chargeback, opened_for, pull_events, open_chargeback}
use adquirente.Chargeback.Life.{
  Opens, open_chargeback-Opens, Call, defend_call, accept_call, reverse_call, run_calls,
  resolutions, may_end, resolutions-run_calls, AllAfter,
}
use adquirente.Ledger.{payable_to_merchant, balanced, for_scheduled, for_chargeback}
use adquirente.Ledger.Balance.{
  Movement, schedule_move, chargeback_move, anticipation_move, IsSound, book, book-balanced,
}
use adquirente.Ledger.Reversal.{IsLevel, chargeback-IsLevel}
use adquirente.Tests.Data.{monday, numbered, first_due, due_on_monday, sale}

-- A receivable that falls due a month later.
abbrev later_due : Receivable
later_due = record first_due { due_date = add_days monday 30 }

abbrev half_price : Pricer
half_price net days rate = pos 4000

simulate_iff_example :
    (All (IsOffered "m_1" monday) (later_due ∷ [])
      → (a : Anticipation) × (simulate "ant_1" "m_1" (later_due ∷ []) monday (pos 200) half_price
          ≡ ok a)
        × Offers (later_due ∷ []) monday (pos 200) half_price a)
    × ((a : Anticipation)
        → simulate "ant_1" "m_1" (later_due ∷ []) monday (pos 200) half_price ≡ ok a
        → All (IsOffered "m_1" monday) (later_due ∷ []))
simulate_iff_example = simulate_iff "ant_1" "m_1" later_due [] monday (pos 200) half_price

abbrev offer : Anticipation
offer = record {
  id = "ant_1";
  merchant_id = "m_1";
  items =
      record {
        receivable_id = "rcv_1";
        due_date = add_days monday 30;
        days = pos 30;
        net = pos 9600;
        present_value = pos 4000;
        discount = pos 5600;
      }
      ∷ [];
  gross = pos 9600;
  discount = pos 5600;
  net = pos 4000;
  rate_month = pos 200;
  requested_at = monday;
  status = simulated;
  version = pos 1;
  events = [];
}

open_chargeback-Opens_example :
    Opens "cb_1" "e1" sale "4837"
      (pos 10000)
      monday
      (open_chargeback "cb_1" "e1" "e2" sale "4837" (pos 10000) monday)
open_chargeback-Opens_example =
    open_chargeback-Opens "cb_1" "e1" "e2" sale "4837" (pos 10000) monday

abbrev dispute : Chargeback
dispute = (pull_events (opened_for "cb_1" "e1" sale "4837" (pos 10000) monday)).1

abbrev late_calls : List (Time × Call)
late_calls =
    (add_days monday 11, defend_call)
    ∷ (add_days monday 12, accept_call "e2")
    ∷ (add_days monday 13, reverse_call "e3")
    ∷ []

resolutions-run_calls_example :
    resolutions (run_calls late_calls dispute).0 + may_end (run_calls late_calls dispute).1.status
    ≡ 1
resolutions-run_calls_example = resolutions-run_calls late_calls dispute refl

late_calls-AllAfter : AllAfter dispute.deadline late_calls
late_calls-AllAfter = (omega arith, (omega arith, (omega arith, tt)))

abbrev moves : List Movement
moves =
    schedule_move numbered (first_due ∷ []) monday
    ∷ anticipation_move numbered offer monday
    ∷ chargeback_move numbered first_due monday
    ∷ []

moves-IsSound : All IsSound moves
unfolding due_on_monday sub64
moves-IsSound = ((refl, tt), (refl, (refl, tt)))

book-balanced_example : balanced (book moves) ≡ true
book-balanced_example = book-balanced moves moves-IsSound

chargeback-IsLevel_example :
    IsLevel payable_to_merchant
      (for_scheduled numbered (first_due ∷ []) monday ++ for_chargeback numbered first_due monday)
chargeback-IsLevel_example =
    chargeback-IsLevel numbered numbered first_due monday monday payable_to_merchant
