-- ===== src/Anticipation.antt =====
-- internal/domain/anticipation/anticipation.go: the sale of receivables before they fall due. The
-- pricing is the interface `Pricer`, a parameter here: its one implementation computes the present
-- value with floating-point numbers.
pub mod Amounts
pub mod Confirmation
use adquirente.Base.{
  ℕ, Bool, true, false, not, String, str_eq, Option, none, some, List, [], ◌∷◌, ◌++◌, length, map,
  ◌==◌, if◌then◌else◌,
}
use adquirente.Base.Int.{ℤ, pos}
use adquirente.Base.Int64.{add64, sub64}
use adquirente.Shared.Error.{
  Error, Result, Outcome, ok, err, no_receivables, not_owner, not_anticipable, already_done,
}
use adquirente.Shared.Money.{Money, Bps}
use adquirente.Shared.Time.{Time}
use adquirente.Shared.Event.{BaseEvent, new_base_event}
use adquirente.Receivable.{Receivable, is_anticipable, days_until_due, anticipate}

pub data AnticipationStatus : Type 0 where
  simulated confirmed : AnticipationStatus

pub record Item : Type 0 where
  pub receivable_id : String
  pub due_date : Time
  pub days : ℤ
  pub net : Money
  pub present_value : Money
  pub discount : Money

pub record AnticipationConfirmed : Type 0 where
  pub base : BaseEvent
  pub anticipation_id : String
  pub merchant_id : String
  pub gross : Money
  pub discount : Money
  pub net : Money
  pub receivable_ids : List String

pub record Anticipation : Type 0 where
  pub id : String
  pub merchant_id : String
  pub items : List Item
  pub gross : Money
  pub discount : Money
  pub net : Money
  pub rate_month : Bps
  pub requested_at : Time
  pub status : AnticipationStatus
  pub version : ℤ
  pub events : List AnticipationConfirmed

-- `Pricer.PresentValue`.
abbrev pub Pricer : Type 0
Pricer = Money → ℤ → Bps → Money

abbrev pub add_item : Receivable → ℤ → Money → Anticipation → Anticipation
add_item r days pv a = record a {
  items =
      a.items
      ++ record {
        receivable_id = r.id;
        due_date = r.due_date;
        days = days;
        net = r.net;
        present_value = pv;
        discount = sub64 r.net pv;
      }
        ∷ [];
  gross = add64 a.gross r.net;
  net = add64 a.net pv;
}

-- The loop of `Simulate`.
unfoldable pub price_all :
    String → Time → Bps → Pricer → List Receivable → Anticipation → Result Anticipation
price_all merchant_id today rate pricer [] a = ok a
price_all merchant_id today rate pricer (r ∷ rs) a =
    let days = days_until_due today r in
    let rest =
      price_all merchant_id today rate pricer rs (add_item r days (pricer r.net days rate) a) in
    if not (str_eq r.merchant_id merchant_id)
    then err not_owner
    else if not (is_anticipable today r)
    then err not_anticipable
    else rest

abbrev pub blank : String → String → Bps → Time → Anticipation
blank id merchant_id rate today = record {
  id = id;
  merchant_id = merchant_id;
  items = [];
  gross = pos 0;
  discount = pos 0;
  net = pos 0;
  rate_month = rate;
  requested_at = today;
  status = simulated;
  version = pos 1;
  events = [];
}

-- `a.discount = a.gross - a.net`
abbrev pub with_discount : Result Anticipation → Result Anticipation
with_discount (ok a) = ok (record a { discount = sub64 a.gross a.net })
with_discount (err e) = err e

-- `id` is the identifier that `NewID("ant")` draws.
unfoldable pub simulate :
    String → String → List Receivable → Time → Bps → Pricer → Result Anticipation
simulate id merchant_id [] today rate pricer = err no_receivables
simulate id merchant_id (r ∷ rs) today rate pricer =
    with_discount
      (price_all merchant_id today rate pricer (r ∷ rs) (blank id merchant_id rate today))

-- After the call on one receivable: its error ends the loop, with the rest as it was.
abbrev pub after_one :
    List Receivable
    → Outcome Receivable
    → List Receivable × Result (List String)
    → List Receivable × Result (List String)
after_one rs (r, some e) later = (r ∷ rs, err e)
after_one rs (r, none) (later, err e) = (r ∷ later, err e)
after_one rs (r, none) (later, ok ids) = (r ∷ later, ok (r.id ∷ ids))

-- The loop of `Confirm`: the receivables as the calls leave them, in place, with their identifiers
-- or with the error that ends the loop. The receivables after an error are not reached.
unfoldable pub anticipate_all :
    String → Time → List Receivable → List Receivable × Result (List String)
anticipate_all id now [] = ([], ok [])
anticipate_all id now (r ∷ rs) = after_one rs (anticipate id now r) (anticipate_all id now rs)

abbrev pub is_confirmed : AnticipationStatus → Bool
is_confirmed simulated = false
is_confirmed confirmed = true

-- The end of `Confirm`, after the loop.
abbrev pub close_confirm :
    String
    → Time
    → Anticipation
    → List Receivable × Result (List String)
    → Anticipation × List Receivable × Option Error
close_confirm event_id now a (rs, err e) = (a, rs, some e)
close_confirm event_id now a (rs, ok ids) = (
  record a {
    status = confirmed;
    version = add64 a.version (pos 1);
    events =
        a.events
        ++ record {
          base = new_base_event event_id "receivable.anticipated" a.id now;
          anticipation_id = a.id;
          merchant_id = a.merchant_id;
          gross = a.gross;
          discount = a.discount;
          net = a.net;
          receivable_ids = ids;
        }
          ∷ [];
  },
  rs,
  none,
)

-- `Confirm`: the anticipation and the receivables, which the code changes in place, and the error.
unfoldable pub confirm :
    String → List Receivable → Time → Anticipation → Anticipation × List Receivable × Option Error
confirm event_id rs now a =
    if is_confirmed a.status
    then (a, rs, some already_done)
    else if not (length rs == length a.items)
    then (a, rs, some not_anticipable)
    else close_confirm event_id now a (anticipate_all a.id now rs)

abbrev pub pull_events : Anticipation → List AnticipationConfirmed × Anticipation
pull_events a = (a.events, record a { events = [] })

-- `ReceivableIDs`
abbrev pub item_ids : Anticipation → List String
item_ids a = map (λ i. i.receivable_id) a.items
