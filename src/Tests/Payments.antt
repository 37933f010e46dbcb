-- ===== src/Tests/Payments.antt =====
-- Examples for receivables and settlements.
use adquirente.Base.{◌<◌, ◌≡◌, refl, List, [], ◌∷◌, length, arith, All}
use adquirente.Base.Int.{pos}
use adquirente.Base.Int64.{half_range, Fits, sub64}
use adquirente.Settlement.Build.Lots.{IsPayable, NetsNonneg, nets_sum}
use adquirente.Shared.Error.{ok}
use adquirente.Shared.Time.{date_only}
use adquirente.Shared.Money.{apply_bps, sum}
use adquirente.Shared.Calendar.{brazil_calendar}
use adquirente.Shared.Calendar.Laws.{brazil_calendar-IsLawful}
use adquirente.Merchant.Fees.{mdr}
use adquirente.Receivable.{Receivable, Lien}
use adquirente.Receivable.Schedule.{schedule}
use adquirente.Receivable.Schedule.Amounts.{Adds, schedule-Adds}
use adquirente.Receivable.Schedule.Dates.{IsDue, DueInOrder, schedule-IsDue}
use adquirente.Receivable.Units.{UnitKey, group_units}
use adquirente.Receivable.Units.Totals.{Distinct, total_at, count_at, nets_with, group_units_lem}
use adquirente.Settlement.{Settlement}
use adquirente.Settlement.Build.{blank, build}
use adquirente.Settlement.Build.Conservation.{PaysOut, build-PaysOut}
use adquirente.Settlement.Build.Guards.{build-IsPayable}
use adquirente.Settlement.Graph as Bank
use adquirente.Tests.Data.{
  shop, plan, sale, monday, numbered, due_on_monday, first_due, advanced_due, bank_lien,
}

rate_of_sale : mdr plan sale.product sale.installments ≡ ok (pos 400)
unfolding mdr
rate_of_sale = refl

schedule-Adds_example :
    (rs : List Receivable) × (schedule numbered sale plan brazil_calendar monday ≡ ok rs)
    × Adds (pos 10000) (apply_bps (pos 10000) (pos 400)) 3 rs
schedule-Adds_example =
    schedule-Adds numbered sale plan brazil_calendar monday monday (pos 400) 3 refl rate_of_sale
      refl (omega arith) (omega arith)

schedule-IsDue_example :
    (rs : List Receivable) × (schedule numbered sale plan brazil_calendar monday ≡ ok rs)
    × All (λ r. IsDue brazil_calendar (date_only monday) r.due_date) rs
    × DueInOrder rs
schedule-IsDue_example =
    schedule-IsDue numbered sale plan brazil_calendar monday monday (pos 400) 3
      brazil_calendar-IsLawful refl rate_of_sale refl (omega arith) (omega arith)

abbrev dues : List Receivable
dues = first_due ∷ advanced_due ∷ []

first_net : first_due.net ≡ pos 9600
unfolding due_on_monday sub64
first_net = refl

advanced_net : advanced_due.net ≡ pos 4800
unfolding due_on_monday sub64
advanced_net = refl

dues-Fits : All (λ r. Fits r.net) dues
dues-Fits =
    rw (first_net, advanced_net) ((omega arith, omega arith), ((omega arith, omega arith), tt))

dues-IsPayable : All (IsPayable "m_1" (date_only monday)) dues
unfolding due_on_monday sub64
dues-IsPayable = ((refl, refl, refl), ((refl, refl, refl), tt))

dues-NetsNonneg : NetsNonneg dues
dues-NetsNonneg = rw (first_net, advanced_net) (omega arith, (omega arith, tt))

dues_small : nets_sum dues < half_range
dues_small = rw (first_net, advanced_net) (omega arith)

group_units_lem_example :
    Distinct (group_units dues)
    × ((k : UnitKey)
        → (total_at k (group_units dues) ≡ sum (nets_with k dues))
          × (count_at k (group_units dues) ≡ length (nets_with k dues)))
group_units_lem_example = group_units_lem dues dues-Fits

build-PaysOut_example :
    (s : Settlement) × (build "stl_1" numbered monday shop dues (bank_lien ∷ []) monday ≡ ok s)
    × PaysOut dues (bank_lien ∷ []) s
build-PaysOut_example =
    build-PaysOut "stl_1" numbered monday shop first_due (advanced_due ∷ []) (bank_lien ∷ []) monday
      dues-IsPayable dues-NetsNonneg (omega arith, tt) dues_small

abbrev draft : Settlement
draft = blank "stl_1" monday shop monday

abbrev no_liens : List Lien
no_liens = []

one_built :
    (s : Settlement) × (build "stl_1" numbered monday shop dues no_liens monday ≡ ok s)
    × PaysOut dues no_liens s
one_built =
    build-PaysOut "stl_1" numbered monday shop first_due (advanced_due ∷ []) no_liens monday
      dues-IsPayable dues-NetsNonneg tt dues_small

build-IsPayable_example : All (IsPayable "m_1" (date_only monday)) dues
build-IsPayable_example =
    build-IsPayable "stl_1" numbered monday shop dues no_liens monday one_built.1
