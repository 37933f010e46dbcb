-- ===== src/Application/SettleDue.antt =====
-- internal/application/settlement/settle_due.go: the payment of the receivables that fall due on a
-- day, in batches, one settlement for each merchant of a batch. The registry, the bank and the lock
-- are parameters. The report that comes with an error is not modelled.
pub mod Lots
use adquirente.Base.{
  ℕ, zero, suc, ◌+◌, Bool, true, false, not, ◌&&◌, String, str_eq, Option, none, some, List, [],
  ◌∷◌, ◌++◌, length, map, if◌then◌else◌,
}
use adquirente.Base.Int.{pos}
use adquirente.Base.Int64.{add64}
use adquirente.Base.Assoc.{lookup, insert, string_eq}
use adquirente.Shared.Error.{Error, Result, ok, err, Outcome, already_running}
use adquirente.Shared.Money.{Money}
use adquirente.Shared.Time.{Time, date_only}
use adquirente.Shared.Calendar.{BusinessCalendar}
use adquirente.Merchant.{Merchant}
use adquirente.Receivable.{Receivable, Lien, settle}
use adquirente.Settlement.{Settlement, mark_sent, mark_confirmed, mark_failed, pull_events}
use adquirente.Settlement.Build.{build}
use adquirente.Ledger.{Entry, for_settlement}
use adquirente.Store.{
  World, Action, OutboxEvent, settlement_event, payment_sent, pure, raise, lift, applied, call,
  ◌>>=◌, unit_of_work,
}
use adquirente.Store.Shops.{find_merchant}
use adquirente.Store.Dues.{list_due_on, update_all}
use adquirente.Store.Papers.{create_settlement, update_settlement}
use adquirente.Store.Books.{append_events, append_entries}

pub record Report : Type 0 where
  pub date : Time
  pub skipped : String
  pub merchants : ℕ
  pub settlements : ℕ
  pub failed : ℕ
  pub paid : Money
  pub retained : Money

-- What `gateway.Send` answers: a reference, or an error with its text.
pub data Answer : Type 0 where
  accepted : (ref : String) → Answer
  rejected : (reason : String) → Answer

-- The identifiers that the settlement of one merchant draws.
pub record Draws : Type 0 where
  pub settlement_id : String
  pub order_id : ℕ → String
  pub event_id : String
  pub entry_id : ℕ → String

-- The fields of the use case and the readings of one run; batch k draws `draws k` for a merchant and
-- walks its map in the order `arranged k`.
pub record Settler : Type 0 where
  pub calendar : BusinessCalendar
  pub liens_of : String → Time → Result (List Lien)
  pub send : Settlement → Answer
  pub acquire : Result Bool
  pub batch_size : ℕ
  pub now : Time
  pub by_merchant_and_id : List Receivable → List Receivable
  pub draws : ℕ → String → Draws
  pub arranged : ℕ → List (String × List Receivable) → List (String × List Receivable)

-- One call of `r.Settle`, before the rest of the loop.
abbrev pub settled_next : Outcome Receivable → Result (List Receivable) → Result (List Receivable)
settled_next (r, some e) rest = err e
settled_next (r, none) (err e) = err e
settled_next (r, none) (ok rs) = ok (r ∷ rs)

unfoldable pub settle_all : String → Time → List Receivable → Result (List Receivable)
settle_all settlement_id now [] = ok []
settle_all settlement_id now (r ∷ rs) =
    settled_next (settle settlement_id now r) (settle_all settlement_id now rs)

abbrev pub pulled_settlement : Settlement → List OutboxEvent
pulled_settlement st = map settlement_event (pull_events st).0

-- `if entries := …; len(entries) > 0`
abbrev pub book_payment : List Entry → Action (Unit {0})
book_payment [] = pure tt
book_payment (e ∷ es) = append_entries (e ∷ es)

-- The branch of a lot that the bank rejected.
unfoldable pub note_failure : Draws → String → Time → Settlement → Report → Action Report
note_failure d reason now st rep = applied (mark_failed d.event_id reason now st) >>= λ st'.
    update_settlement st' >>= λ _.
    append_events (pulled_settlement st') >>= λ _. pure (record rep { failed = suc rep.failed })

-- The figures that a paid settlement adds to the report.
abbrev pub add_paid : Settlement → Report → Report
add_paid st rep = record rep {
  settlements = suc rep.settlements;
  paid = add64 rep.paid (add64 st.to_merchant st.to_creditors);
  retained = add64 rep.retained st.retained;
}

-- The branch of a lot that the bank took.
unfoldable pub note_payment :
    Draws → String → Time → List Receivable → Settlement → Report → Action Report
note_payment d ref now rs st rep = applied (mark_sent ref now st) >>= λ st1.
    applied (mark_confirmed d.event_id now st1) >>= λ st2.
    lift (settle_all st2.id now rs) >>= λ rs'. update_all rs' >>= λ _.
    update_settlement st2 >>= λ _. book_payment (for_settlement d.entry_id st2 now) >>= λ _.
    append_events (pulled_settlement st2) >>= λ _. pure (add_paid st2 rep)

abbrev pub after_answer :
    Answer → Draws → Time → List Receivable → Settlement → Report → Action Report
after_answer (accepted ref) d now rs st rep = note_payment d ref now rs st rep
after_answer (rejected reason) d now rs st rep = note_failure d reason now st rep

unfoldable pub settle_merchant :
    Settler → Draws → Time → String → List Receivable → Report → Action Report
settle_merchant s d day merchant_id rs rep = find_merchant merchant_id >>= λ m.
    lift (s.liens_of merchant_id day) >>= λ liens.
    lift (build d.settlement_id d.order_id day m rs liens s.now) >>= λ st.
    create_settlement st >>= λ _. call (payment_sent st) >>= λ _.
    after_answer (s.send st) d s.now rs st (record rep { merchants = suc rep.merchants })

-- `byMerchant[id] = append(byMerchant[id], r)`
abbrev pub lot_of : Option (List Receivable) → List Receivable
lot_of none = []
lot_of (some rs) = rs

unfoldable pub group_lots :
    List Receivable → List (String × List Receivable) → List (String × List Receivable)
group_lots [] lots = lots
group_lots (r ∷ rs) lots =
    group_lots rs (insert r.merchant_id (lot_of (lookup r.merchant_id lots) ++ r ∷ []) lots)

unfoldable pub settle_lots :
    Settler → ℕ → Time → List (String × List Receivable) → Report → Action Report
settle_lots s k day [] rep = pure rep
settle_lots s k day ((merchant_id, rs) ∷ lots) rep =
    settle_merchant s (s.draws k merchant_id) day merchant_id rs rep >>= settle_lots s k day lots

abbrev pub settle_batch : Settler → ℕ → Time → Report → List Receivable → Action (ℕ × Report)
settle_batch s k day rep [] = pure (0, rep)
settle_batch s k day rep (r ∷ rs) =
    settle_lots s k day (s.arranged k (group_lots (r ∷ rs) [])) rep >>= λ rep'.
    pure (length (r ∷ rs), rep')

unfoldable pub batch : Settler → ℕ → Time → Report → Action (ℕ × Report)
batch s k day rep =
    unit_of_work (list_due_on s.by_merchant_and_id day s.batch_size >>= settle_batch s k day rep)

-- `if processed == 0 { return rep, nil }`
abbrev pub after_batch : ℕ → Report → Action (Option Report) → Action (Option Report)
after_batch zero rep rest = pure (some rep)
after_batch (suc n) rep rest = rest

-- The loop of `Execute` from batch k on, for at most `fuel` batches; `none` is a loop that goes on.
unfoldable pub batches : Settler → ℕ → ℕ → Time → Report → Action (Option Report)
batches s zero k day rep = pure none
batches s (suc fuel) k day rep =
    batch s k day rep >>= λ (n, rep'). after_batch n rep' (batches s fuel (suc k) day rep')

abbrev pub blank_report : Time → Report
blank_report day = record {
  date = day;
  skipped = "";
  merchants = 0;
  settlements = 0;
  failed = 0;
  paid = pos 0;
  retained = pos 0;
}

-- `if !ok { return rep, ErrAlreadyRunning }`
abbrev pub when_locked : Bool → Action (Option Report) → Action (Option Report)
when_locked true rest = rest
when_locked false rest = raise already_running

unfoldable pub execute : Settler → ℕ → Time → Action (Option Report)
execute s fuel now =
    let day = date_only now in
    let rep = blank_report day in
    if not (s.calendar.is_business_day day)
    then pure (some (record rep { skipped = "não é dia útil" }))
    else (lift s.acquire >>= λ locked. when_locked locked (batches s fuel 0 day rep))
