-- ===== src/Application/Anticipate.antt =====
-- internal/application/anticipation/anticipate.go: the offer for future receivables, and its
-- confirmation. The registry and the pricing are parameters.
pub mod Request
use adquirente.Base.{
  ℕ, Bool, true, false, not, ◌||◌, String, Option, none, some, List, [], ◌∷◌, length, map, ◌==◌,
  if◌then◌else◌,
}
use adquirente.Shared.Error.{Error, Result, ok, err, not_found, receivable_liened}
use adquirente.Shared.Money.{Bps}
use adquirente.Shared.Time.{Time}
use adquirente.Merchant.{Merchant}
use adquirente.Receivable.{Receivable, Lien}
use adquirente.Anticipation.{Anticipation, Pricer, simulate, confirm, pull_events, item_ids}
use adquirente.Ledger.{for_anticipation}
use adquirente.Store.{
  World, Action, OutboxEvent, anticipation_event, ownership_transferred, pure, raise, lift, call,
  ◌>>=◌, unit_of_work,
}
use adquirente.Store.Shops.{find_merchant}
use adquirente.Store.Dues.{find_by_ids, update_all}
use adquirente.Store.Papers.{create_anticipation, find_anticipation}
use adquirente.Store.Books.{append_events, append_entries}

-- The fields of the use case, and the identifiers and the time of one run.
pub record Anticipator : Type 0 where
  pub liens_of : String → Time → Result (List Lien)
  pub pricer : Pricer
  pub now : Time
  pub anticipation_id : String
  pub event_id : String
  pub entry_id : ℕ → String
  pub by_due_date : List Receivable → List Receivable
  pub by_id : List Receivable → List Receivable

-- `if len(rs) != len(receivableIDs)`
abbrev pub all_found : List String → List Receivable → Result (List Receivable)
all_found ids rs = if not (length rs == length ids) then err not_found else ok rs

abbrev pub offered : Anticipator → String → Merchant → List Receivable → Result Anticipation
offered s merchant_id m rs =
    simulate s.anticipation_id merchant_id rs s.now m.fee_plan.anticipation_rate_month s.pricer

-- `Simulate`
unfoldable pub offer : Anticipator → String → List String → Action Anticipation
offer s merchant_id ids = find_merchant merchant_id >>= λ m.
    find_by_ids s.by_due_date merchant_id ids >>= λ rs.
    lift (all_found ids rs) >>= λ rs. lift (offered s merchant_id m rs)

abbrev pub is_seen : Time → List Time → Bool
is_seen day [] = false
is_seen day (d ∷ days) = d == day || is_seen day days

-- The registry's answer for one day, before the rest of the loop.
abbrev pub clear_day : Result (List Lien) → Result (Unit {0}) → Result (Unit {0})
clear_day (err e) rest = err e
clear_day (ok (l ∷ ls)) rest = err receivable_liened
clear_day (ok []) rest = rest

-- `ensureNoLiens`: each due date is asked for once.
unfoldable pub ensure_no_liens :
    (Time → Result (List Lien)) → List Time → List Receivable → Result (Unit {0})
ensure_no_liens liens_on seen [] = ok tt
ensure_no_liens liens_on seen (r ∷ rs) =
    let again = ensure_no_liens liens_on seen rs in
    let fresh = clear_day (liens_on r.due_date) (ensure_no_liens liens_on (r.due_date ∷ seen) rs) in
    if is_seen r.due_date seen then again else fresh

-- The anticipation and the receivables after `a.Confirm(rs, now)`.
abbrev pub confirmed_sale :
    Anticipation × List Receivable × Option Error → Result (Anticipation × List Receivable)
confirmed_sale (a, rs, none) = ok (a, rs)
confirmed_sale (a, rs, some e) = err e

abbrev pub pulled_anticipation : Anticipation → List OutboxEvent
pulled_anticipation a = map anticipation_event (pull_events a).0

unfoldable pub record_anticipation :
    Anticipator → Anticipation × List Receivable → Action Anticipation
record_anticipation s (a, rs) = create_anticipation a >>= λ _. update_all rs >>= λ _.
    append_entries (for_anticipation s.entry_id a s.now) >>= λ _.
    append_events (pulled_anticipation a) >>= λ _. pure (pull_events a).1

-- The function that `Request` gives to the unit of work.
unfoldable pub agree : Anticipator → String → List String → Merchant → Action Anticipation
agree s merchant_id ids m = find_by_ids s.by_id merchant_id ids >>= λ rs.
    lift (all_found ids rs) >>= λ rs. lift (offered s merchant_id m rs) >>= λ a.
    lift (ensure_no_liens (s.liens_of merchant_id) [] rs) >>= λ _.
    lift (confirmed_sale (confirm s.event_id rs s.now a)) >>= record_anticipation s

-- `Request`: the registry is told after the commit, and its error is only logged.
unfoldable pub request : Anticipator → String → List String → Action Anticipation
request s merchant_id ids = find_merchant merchant_id >>= λ m.
    unit_of_work (agree s merchant_id ids m) >>= λ a.
    call (ownership_transferred (item_ids a) "ADQUIRENTE") >>= λ _. pure a

-- `Get`
unfoldable pub get_anticipation : String → String → Action Anticipation
get_anticipation merchant_id id = unit_of_work (find_anticipation merchant_id id)
