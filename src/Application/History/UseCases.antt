-- ===== src/Application/History/UseCases.antt =====
-- Every use case adds to the ledger and to the outbox, and takes nothing from them.
use adquirente.Base.{
  ℕ, zero, suc, ◌≡◌, refl, sym, ap, ◌∙◌, Bool, Bool-cases, inl, inr, true, false, not, String,
  str_eq, Option, none, some, List, [], ◌∷◌, ◌++◌, map, if◌then◌else◌,
}
use adquirente.Shared.Error.{Outcome}
use adquirente.Shared.Money.{Money}
use adquirente.Shared.Time.{Time, date_only}
use adquirente.Merchant.{Merchant}
use adquirente.Transaction.{Transaction, TransactionCaptured, TransactionCanceled}
use adquirente.Receivable.{Receivable}
use adquirente.Settlement.{Settlement}
use adquirente.Chargeback as Dispute
use mathlib.Core.Path.{subst}
use mathlib.Core.List.{append-nil}
use adquirente.Ledger.Balance.{settlement_move, book-balanced, balanced_nil}
use adquirente.Ledger.{balanced, for_scheduled, for_anticipation, for_settlement}
use adquirente.Store.{Database, World, Action, chargeback_event, pure, lift, unit_of_work, ◌>>=◌}
use adquirente.Store.Dues.{list_due_on, is_due_on, limited}
use adquirente.Store.Dues.Effects.{query-ok}
use adquirente.Store.Books.{mark_if_new, mark, is_processed}
use adquirente.Store.Books.Effects.{mark_if_new-ok}
use adquirente.Application.Lifecycle.{change, pulled}
use adquirente.Application.Lifecycle.Effect.{Changed, change-IsAtomic}
use adquirente.Application.Authorization as Authorization
use adquirente.Application.Authorization.Checks.{Setting, AuthorizeCommand}
use adquirente.Application.Authorization.Saga.{Authorizes, execute-Authorizes}
use adquirente.Application.Disputes as Disputes
use adquirente.Application.Disputes.{Draws}
use adquirente.Application.Disputes.Atomic.{Disputed, execute-IsAtomic, booked}
use adquirente.Application.Anticipate.{Anticipator, request, pulled_anticipation}
use adquirente.Application.Anticipate.Request.{Requested, request-Requested}
use adquirente.Application.Merchants as Merchants
use adquirente.Application.Merchants.{onboard}
use adquirente.Application.Merchants.Enrollment as Enrollment
use adquirente.Application.Merchants.Enrollment.{OnboardCommand}
use adquirente.Application.Merchants.Effect.{
  Reviewed, change-Reviewed, Onboarded, onboard-Onboarded,
}
use adquirente.Application.Scheduling.{
  Scheduler, after_mark, once, agenda, registered, on_captured, take_back, on_canceled, decoded,
  handle,
}
use adquirente.Application.Scheduling.Effect.{agenda-ok, take_back-TakesBack}
use adquirente.Application.SettleDue as SettleDue
use adquirente.Application.SettleDue.{
  Answer, accepted, rejected, Report, Settler, pulled_settlement, settle_merchant, settle_lots,
  settle_batch, batch, after_batch, batches, when_locked, group_lots, blank_report,
}
use adquirente.Application.SettleDue.Lots.{FollowsAnswer, settle_merchant-Settles, asking}
use adquirente.Application.History.{
  Grows, Grows-same, Grows-refl, Grows-events, Growing, GrowsIfOk, AllOrNothing-Growing,
  unit_of_work-Growing, then-Growing, then-GrowsIfOk, reading-Growing,
}

-- No event was marked.
kept_marks :
    (db db' : Database)
    → db'.processed_events ≡ db.processed_events
    → db'.processed_events ≡ db.processed_events ++ []
kept_marks db db' h = h ∙ sym (append-nil db.processed_events)

pub change-Growing :
    (merchant_id id : String) (apply : Transaction → Outcome Transaction)
    → Growing (change merchant_id id apply)
change-Growing merchant_id id apply w =
    AllOrNothing-Growing (Changed merchant_id id apply) w _
      (λ t w' (tx, new, old, row, owned, method, found, tables, value, same).
        Grows-events w.database w'.database (pulled new) (ap (λ db. db.ledger_entries) tables)
          (ap (λ db. db.outbox) tables) (ap (λ db. db.processed_events) tables))
      (change-IsAtomic merchant_id id apply w)

pub authorize-Growing :
    (s : Setting) (cmd : AuthorizeCommand) → Growing (Authorization.execute s cmd)
authorize-Growing s cmd w =
    AllOrNothing-Growing (Authorizes s cmd) w _
      (λ t w'
          (
            m,
            card,
            tx,
            ready,
            (r, nsu, new, answer, method, status, amount, fresh, tables, value, calls),
          ).
        Grows-events w.database w'.database (pulled new) (ap (λ db. db.ledger_entries) tables)
          (ap (λ db. db.outbox) tables) (ap (λ db. db.processed_events) tables))
      (execute-Authorizes s cmd w)

pub dispute-Growing :
    (d : Draws) (merchant_id transaction_id reason_code : String) (amount : Money) (now : Time)
    → Growing (Disputes.execute d merchant_id transaction_id reason_code amount now)
dispute-Growing d merchant_id transaction_id reason_code amount now w =
    AllOrNothing-Growing (Disputed d merchant_id transaction_id reason_code amount now) w _
      (λ c w'
          (
            tx,
            charged,
            cb,
            row,
            owned,
            opened,
            (old, changes, found, disputes, all, fits, tables, value, same),
          ).
        (
          booked changes,
          pulled charged ++ map chargeback_event (Dispute.pull_events cb).0,
          [],
          fits,
          ap (λ db. db.ledger_entries) tables,
          ap (λ db. db.outbox) tables,
          kept_marks w.database w'.database (ap (λ db. db.processed_events) tables),
        ))
      (execute-IsAtomic d merchant_id transaction_id reason_code amount now w)

pub request-Growing :
    (s : Anticipator) (merchant_id : String) (ids : List String)
    → Growing (request s merchant_id ids)
request-Growing s merchant_id ids w =
    AllOrNothing-Growing (Requested s merchant_id ids) w _
      (λ b w'
          (
            m,
            shop,
            (rs, a, sale, sold, found, offer, clear, confirmed, (fresh, all, fits, tables, value)),
            calls,
          ).
        (
          for_anticipation s.entry_id sale s.now,
          pulled_anticipation sale,
          [],
          fits,
          ap (λ db. db.ledger_entries) tables,
          ap (λ db. db.outbox) tables,
          kept_marks w.database w'.database (ap (λ db. db.processed_events) tables),
        ))
      (request-Requested s merchant_id ids w)

pub onboard-Growing : (s : Enrollment.Setting) (cmd : OnboardCommand) → Growing (onboard s cmd)
onboard-Growing s cmd w =
    AllOrNothing-Growing (Onboarded s cmd) w _
      (λ m w' (ready, fresh, unused, tables, same).
        Grows-same w.database w'.database (ap (λ db. db.ledger_entries) tables)
          (ap (λ db. db.outbox) tables) (ap (λ db. db.processed_events) tables))
      (onboard-Onboarded s cmd w)

pub review-Growing :
    (stamp : Time) (id : String) (apply : Merchant → Outcome Merchant)
    → Growing (Merchants.change stamp id apply)
review-Growing stamp id apply w =
    AllOrNothing-Growing (Reviewed stamp id apply) w _
      (λ new w' (m, old, row, method, found, older, tables, same).
        Grows-same w.database w'.database (ap (λ db. db.ledger_entries) tables)
          (ap (λ db. db.outbox) tables) (ap (λ db. db.processed_events) tables))
      (change-Reviewed stamp id apply w)

-- What mark answers and leaves, by whether the event was seen.
abbrev found_or : Bool → String × String → Database → Bool × Database
found_or seen p db =
    if seen
    then (false, db)
    else (true, record db { processed_events = db.processed_events ++ p ∷ [] })

mark-Grows : (p : String × String) (db : Database) → Grows db (mark p db).1
mark-Grows p db = elim (Bool-cases (is_processed p db.processed_events)) [
  | inl seen ↦ subst (λ b. Grows db (found_or b p db).1) (sym seen) (Grows-refl db db refl)
  | inr fresh ↦
      subst (λ b. Grows db (found_or b p db).1) (sym fresh)
        (
          [],
          [],
          p ∷ [],
          balanced_nil,
          sym (append-nil db.ledger_entries),
          sym (append-nil db.outbox),
          refl,
        )
]

mark_if_new-GrowsIfOk : (consumer id : String) → GrowsIfOk (mark_if_new consumer id)
mark_if_new-GrowsIfOk consumer id w b w' h =
    let (marked, same) = mark_if_new-ok consumer id w h in
    let (es, evs, ps, fits, ledger, outbox, marks) = mark-Grows (consumer, id) w.database in
    let tables = sym (ap (λ p. p.1) marked) in
    (
      es,
      evs,
      ps,
      fits,
      ap (λ db. db.ledger_entries) tables ∙ ledger,
      ap (λ db. db.outbox) tables ∙ outbox,
      ap (λ db. db.processed_events) tables ∙ marks,
    )

after_mark-GrowsIfOk :
    {A : Type 0} (nothing : A) (rest : Action A)
    → GrowsIfOk rest
    → (b : Bool) → GrowsIfOk (after_mark nothing rest b)
after_mark-GrowsIfOk nothing rest h true w a w' ran = h w a w' ran
after_mark-GrowsIfOk nothing rest h false w a w' ran =
    Grows-refl w.database w'.database (sym (ap (λ p. p.1.database) ran))

once-GrowsIfOk :
    {A : Type 0} (nothing : A) (rest : Action A) (id : String)
    → GrowsIfOk rest
    → GrowsIfOk (once nothing rest id)
unfolding once
once-GrowsIfOk nothing rest id h =
    then-GrowsIfOk (mark_if_new _ id) _ (mark_if_new-GrowsIfOk _ id)
      (after_mark-GrowsIfOk nothing rest h)

if-Growing :
    {A : Type 0} (b : Bool) (m n : Action A) → Growing m → Growing n → Growing (if b then m else n)
if-Growing true m n h k = h
if-Growing false m n h k = k

module _ {Payload : Type 0} (s : Scheduler Payload) where
  agenda-GrowsIfOk : (ev : TransactionCaptured) → GrowsIfOk (agenda s ev)
  agenda-GrowsIfOk ev w list w' h =
      let (tx, m, row, owned, shop, (evs, planned, said, all, fits, tables, same)) =
        agenda-ok s ev w h in
      (
        for_scheduled s.entry_id list s.now,
        evs,
        [],
        fits,
        ap (λ db. db.ledger_entries) tables,
        ap (λ db. db.outbox) tables,
        kept_marks w.database w'.database (ap (λ db. db.processed_events) tables),
      )

  take_back-GrowsIfOk : (ev : TransactionCanceled) → GrowsIfOk (take_back s ev)
  take_back-GrowsIfOk ev w u w' h =
      let (changes, fits, tables) = take_back-TakesBack s ev w h in
      (
        booked changes,
        [],
        [],
        fits,
        ap (λ db. db.ledger_entries) tables,
        ap (λ db. db.outbox) tables ∙ sym (append-nil w.database.outbox),
        kept_marks w.database w'.database (ap (λ db. db.processed_events) tables),
      )

  registered_reads :
      (rs : List Receivable) (w : World) → (registered s rs w).1.database ≡ w.database
  registered_reads [] w = refl
  registered_reads (r ∷ rs) w = refl

  on_captured-Growing : (ev : TransactionCaptured) → Growing (on_captured s ev)
  unfolding on_captured
  on_captured-Growing ev =
      then-Growing (unit_of_work (once [] (agenda s ev) ev.base.id)) (registered s)
        (unit_of_work-Growing _ (once-GrowsIfOk [] (agenda s ev) ev.base.id (agenda-GrowsIfOk ev)))
        (λ rs. reading-Growing (registered s rs) (registered_reads rs))

  on_canceled-Growing : (ev : TransactionCanceled) → Growing (on_canceled s ev)
  unfolding on_canceled
  on_canceled-Growing ev =
      unit_of_work-Growing _
        (once-GrowsIfOk tt (take_back s ev) ev.base.id (take_back-GrowsIfOk ev))

  decoded-Growing :
      {E : Type 0} (on : E → Action (Unit {0})) (o : Option E)
      → ((ev : E) → Growing (on ev))
      → Growing (decoded s on o)
  decoded-Growing on (some ev) h = h ev
  decoded-Growing on none h = reading-Growing (decoded s on none) (λ w. refl)

  pub handle-Growing :
      (event_type : String) (payload : Payload) → Growing (handle s event_type payload)
  unfolding handle
  handle-Growing event_type payload =
      if-Growing (str_eq event_type "transaction.captured") _ _
        (decoded-Growing (on_captured s) (s.captured_of payload) on_captured-Growing)
        (if-Growing (str_eq event_type "transaction.canceled") _ _
          (decoded-Growing (on_canceled s) (s.canceled_of payload) on_canceled-Growing)
          (reading-Growing (pure tt) (λ w. refl)))

for_settlement-balanced :
    (new_id : ℕ → String) (st : Settlement) (at : Time)
    → balanced (for_settlement new_id st at) ≡ true
for_settlement-balanced new_id st at =
    subst (λ es. balanced es ≡ true) (append-nil (for_settlement new_id st at))
      (book-balanced (settlement_move new_id st at ∷ []) (tt, tt))

FollowsAnswer-Grows :
    (answer : Answer) (d : SettleDue.Draws) (now : Time) (rs : List Receivable) (st : Settlement)
    (rep : Report) (w : World) (rep' : Report) (w' : World)
    → FollowsAnswer answer d now rs st rep w rep' w'
    → Grows w.database w'.database
FollowsAnswer-Grows (accepted ref) d now rs st rep w rep' w'
      (sent, paid, rs', old, method, method', settled, all, found, tables, value, same) =
    (
      for_settlement d.entry_id paid now,
      pulled_settlement paid,
      [],
      for_settlement-balanced d.entry_id paid now,
      ap (λ db. db.ledger_entries) tables,
      ap (λ db. db.outbox) tables,
      kept_marks w.database w'.database (ap (λ db. db.processed_events) tables),
    )
FollowsAnswer-Grows (rejected reason) d now rs st rep w rep' w'
      (failed, old, method, found, tables, value, same) =
    Grows-events w.database w'.database (pulled_settlement failed)
      (ap (λ db. db.ledger_entries) tables) (ap (λ db. db.outbox) tables)
      (ap (λ db. db.processed_events) tables)

settle_merchant-GrowsIfOk :
    (s : Settler) (d : SettleDue.Draws) (day : Time) (merchant_id : String) (rs : List Receivable)
    (rep : Report)
    → GrowsIfOk (settle_merchant s d day merchant_id rs rep)
settle_merchant-GrowsIfOk s d day merchant_id rs rep w rep' w' h =
    let (m, liens, st, shop, listed, built, fresh, follows) =
      settle_merchant-Settles s d day merchant_id rs rep w rep' w' h in
    FollowsAnswer-Grows (s.send st) d s.now rs st _ (asking st w) rep' w' follows

settle_lots-GrowsIfOk :
    (s : Settler) (k : ℕ) (day : Time) (lots : List (String × List Receivable)) (rep : Report)
    → GrowsIfOk (settle_lots s k day lots rep)
unfolding settle_lots
settle_lots-GrowsIfOk s k day [] rep w rep' w' h =
    Grows-refl w.database w'.database (sym (ap (λ p. p.1.database) h))
settle_lots-GrowsIfOk s k day ((id, rs) ∷ lots) rep w rep' w' h =
    then-GrowsIfOk (settle_merchant s (s.draws k id) day id rs rep) (settle_lots s k day lots)
      (settle_merchant-GrowsIfOk s (s.draws k id) day id rs rep)
      (settle_lots-GrowsIfOk s k day lots) w rep' w' h

settle_batch-GrowsIfOk :
    (s : Settler) (k : ℕ) (day : Time) (rep : Report) (list : List Receivable)
    → GrowsIfOk (settle_batch s k day rep list)
settle_batch-GrowsIfOk s k day rep [] w p w' h =
    Grows-refl w.database w'.database (sym (ap (λ p. p.1.database) h))
settle_batch-GrowsIfOk s k day rep (r ∷ rs) w p w' h =
    then-GrowsIfOk (settle_lots s k day (s.arranged k (group_lots (r ∷ rs) [])) rep) _
      (settle_lots-GrowsIfOk s k day (s.arranged k (group_lots (r ∷ rs) [])) rep)
      (λ rep' v q v' last. Grows-refl v.database v'.database (sym (ap (λ p. p.1.database) last))) w
      p w' h

list_due_on-GrowsIfOk :
    (sorted : List Receivable → List Receivable) (day : Time) (size : ℕ)
    → GrowsIfOk (list_due_on sorted day size)
unfolding list_due_on
list_due_on-GrowsIfOk sorted day size w rs w' h =
    let (rows, tables, same) = query-ok (λ rs. limited size (sorted rs)) (is_due_on day) w h in
    Grows-refl w.database w'.database tables

batch-Growing : (s : Settler) (k : ℕ) (day : Time) (rep : Report) → Growing (batch s k day rep)
unfolding batch
batch-Growing s k day rep = unit_of_work-Growing _ (
    then-GrowsIfOk (list_due_on s.by_merchant_and_id day s.batch_size) (settle_batch s k day rep)
      (list_due_on-GrowsIfOk s.by_merchant_and_id day s.batch_size)
      (settle_batch-GrowsIfOk s k day rep))

after_batch-Growing :
    (n : ℕ) (rep : Report) (rest : Action (Option Report))
    → Growing rest
    → Growing (after_batch n rep rest)
after_batch-Growing zero rep rest h = reading-Growing (after_batch zero rep rest) (λ w. refl)
after_batch-Growing (suc n) rep rest h = h

batches-Growing :
    (s : Settler) (fuel k : ℕ) (day : Time) (rep : Report) → Growing (batches s fuel k day rep)
unfolding batches
batches-Growing s zero k day rep = reading-Growing (batches s zero k day rep) (λ w. refl)
batches-Growing s (suc fuel) k day rep =
    then-Growing (batch s k day rep) _ (batch-Growing s k day rep) (λ p.
      after_batch-Growing p.0 p.1 (batches s fuel (suc k) day p.1)
        (batches-Growing s fuel (suc k) day p.1))

when_locked-Growing :
    (b : Bool) (rest : Action (Option Report)) → Growing rest → Growing (when_locked b rest)
when_locked-Growing true rest h = h
when_locked-Growing false rest h = reading-Growing (when_locked false rest) (λ w. refl)

pub settle-Growing : (s : Settler) (fuel : ℕ) (now : Time) → Growing (SettleDue.execute s fuel now)
unfolding SettleDue.execute
settle-Growing s fuel now =
    let day = date_only now in
    let rep = blank_report day in
    let skipped = pure (some (record rep { skipped = "não é dia útil" })) in
    if-Growing (not (s.calendar.is_business_day day)) skipped
      (lift s.acquire >>= λ locked. when_locked locked (batches s fuel 0 day rep))
      (reading-Growing skipped (λ w. refl))
      (then-Growing (lift s.acquire) (λ locked. when_locked locked (batches s fuel 0 day rep))
        (reading-Growing (lift s.acquire) (λ w. refl))
        (λ locked.
          when_locked-Growing locked (batches s fuel 0 day rep) (batches-Growing s fuel 0 day rep)))
