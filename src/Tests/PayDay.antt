-- ===== src/Tests/PayDay.antt =====
-- Examples for the payment of a day's receivables.
use adquirente.Base.{◌≡◌, refl, Bool, true, false, List, [], ◌∷◌}
use adquirente.Base.Int64.{sub64, add64}
use adquirente.Shared.Error.{Result, ok, err}
use adquirente.Shared.Time.{date}
use adquirente.Shared.Calendar.{brazil_calendar}
use adquirente.Merchant.Fees.{new_fee_plan}
use adquirente.Receivable.{Receivable, transition, settle}
use adquirente.Settlement.{mark_sent, mark_confirmed}
use adquirente.Settlement.Build.{build, collect, pay_liens}
use adquirente.Ledger.{balanced, balanced_from}
use adquirente.Store.{World, statement}
use adquirente.Store.Rows.{insert_in, update_in}
use adquirente.Store.Shops.{find_merchant, to_domain}
use adquirente.Store.Dues.{update_all}
use adquirente.Store.Books.{append_events, append_entries, insert_entries}
use adquirente.Application.SettleDue.{
  accepted, Draws, Report, Settler, settle_all, note_payment, settle_merchant, blank_report,
}
use adquirente.Application.SettleDue.Lots.{Settles, settle_merchant-Settles}
use adquirente.Tests.Data.{monday, numbered, first_due, advanced_due, due_on_monday, bank_lien}
use adquirente.Tests.UseCases.{start}

abbrev draws : Draws
draws = record {
  settlement_id = "stl_1";
  order_id = numbered;
  event_id = "ev_3";
  entry_id = numbered;
}

-- The bank takes every lot; a creditor has a lien on the day.
abbrev pub settler : Settler
settler = record {
  calendar = brazil_calendar;
  liens_of = λ merchant_id day. ok (bank_lien ∷ []);
  send = λ st. accepted "ref_1";
  acquire = ok true;
  batch_size = 100;
  now = monday;
  by_merchant_and_id = λ rs. rs;
  draws = λ k merchant_id. draws;
  arranged = λ k lots. lots;
}

abbrev lot : List Receivable
lot = first_due ∷ advanced_due ∷ []

abbrev succeeded : {A : Type 0} → Result A → Bool
succeeded (ok a) = true
succeeded (err e) = false

abbrev report_or : Report → Result Report → Report
report_or rep (ok r) = r
report_or rep (err e) = rep

as_run :
    (rep : Report) (r : Result Report × World)
    → succeeded r.0 ≡ true
    → r ≡ (ok (report_or rep r.0), r.1)
as_run rep (ok u, w) h = refl
as_run rep (err e, w) h = absurd cc

abbrev settled_run : Result Report × World
settled_run = settle_merchant settler draws monday "m_1" lot (blank_report monday) start

settled : settled_run ≡ (ok (report_or (blank_report monday) settled_run.0), settled_run.1)
unfolding settle_merchant find_merchant to_domain new_fee_plan statement build collect pay_liens
    insert_in note_payment mark_sent mark_confirmed settle_all settle transition update_all
    update_in append_entries insert_entries append_events balanced balanced_from due_on_monday add64
    sub64 date
settled = as_run (blank_report monday) _ refl

settle_merchant-Settles_example :
    Settles settler draws monday "m_1" lot
      (blank_report monday)
      start
      (report_or (blank_report monday) settled_run.0)
      settled_run.1
settle_merchant-Settles_example =
    settle_merchant-Settles settler draws monday "m_1" lot (blank_report monday) start
      (report_or (blank_report monday) settled_run.0) settled_run.1 settled
