-- ===== src/Chargeback/Life.antt =====
-- The life of a dispute: which sales can be disputed, and how a dispute ends.
use adquirente.Base.{
  ℕ, ◌+◌, ◌<◌, All, ◌≡◌, ◌≢◌, ◌⊎◌, String, none, some, List, [], ◌∷◌, ◌++◌, arith,
}
use mathlib.Core.Path.{subst}
use adquirente.Base.Int.{pos, ◌≤ℤ◌}
use adquirente.Base.Int64.{add64}
use adquirente.Shared.Error.{Result, ok, err, Outcome, transaction_status, amount_above_transaction}
use adquirente.Shared.Money.{Money}
use adquirente.Shared.Time.{Time}
use adquirente.Transaction as Sale
use adquirente.Transaction.{Transaction}
use adquirente.Chargeback.{
  ChargebackStatus, opened, defended, accepted, reversed, Chargeback, ChargebackEvent,
  chargeback_opened, chargeback_resolved, opened_for, open_chargeback, search_table, transition,
  defend, resolve, accept, reverse, pull_events,
}

-- A captured or settled sale, and a positive part of its amount.
abbrev pub IsDisputable : Transaction → Money → Type 0
IsDisputable tx amount =
    ((tx.status ≡ Sale.captured) ⊎ (tx.status ≡ Sale.settled))
    × (pos 1 ≤ℤ amount)
    × (amount ≤ℤ tx.amount)

-- How an opening ends.
abbrev pub Opens :
    String → String → Transaction → String → Money → Time → Transaction × Result Chargeback → Type 0
Opens id event_id tx reason_code amount now (tx', r) =
    (IsDisputable tx amount
      × (r ≡ ok (opened_for id event_id tx reason_code amount now))
      × (tx'.status ≡ Sale.chargebacked)
      × (tx'.version ≡ add64 tx.version (pos 1))
      × (tx'.amount ≡ tx.amount))
    ⊎ (¬ IsDisputable tx amount
        × (tx' ≡ tx)
        × (((r ≡ err transaction_status) × (tx.status ≢ Sale.captured) × (tx.status ≢ Sale.settled))
            ⊎ ((r ≡ err amount_above_transaction)
                × ((tx.status ≡ Sale.captured) ⊎ (tx.status ≡ Sale.settled)))))

-- A dispute is opened exactly for a captured or settled sale and a positive part of its amount. The
-- sale is then chargebacked at its next version with the same amount, and the dispute is open, with
-- ten days to defend it; in every other case there is an error, about the
-- status of the sale if it is another one and about the amount if not, and the sale is unchanged.
pub open_chargeback-Opens :
    (id event_id tx_event_id : String) (tx : Transaction) (reason_code : String) (amount : Money)
    (now : Time)
    → Opens id event_id tx reason_code amount now
        (open_chargeback id event_id tx_event_id tx reason_code amount now)
unfolding open_chargeback Sale.chargeback
open_chargeback-Opens id event_id tx_event_id tx reason_code amount now = ground arith

pub data Call : Type 0 where
  defend_call : Call
  accept_call : (event_id : String) → Call
  reverse_call : (event_id : String) → Call

abbrev pub perform : Call → Time → Chargeback → Outcome Chargeback
perform defend_call now c = defend now c
perform (accept_call id) now c = accept id now c
perform (reverse_call id) now c = reverse id now c

-- The calls of a sequence, each with its time, on the stored chargeback: an error stores nothing.
abbrev pub store : Chargeback → Outcome Chargeback → List ChargebackEvent × Chargeback
store old (c, none) = pull_events c
store old (c, some e) = ([], old)

pub run_calls : List (Time × Call) → Chargeback → List ChargebackEvent × Chargeback
run_calls [] c = ([], c)
run_calls ((now, call) ∷ calls) c =
    let (sent, d) = store c (perform call now c) in
    let (later, e) = run_calls calls d in (sent ++ later, e)

abbrev is_resolution : ChargebackEvent → ℕ
is_resolution (chargeback_opened e) = 0
is_resolution (chargeback_resolved e) = 1

-- How many of the events announce an end.
abbrev pub resolutions : List ChargebackEvent → ℕ
resolutions [] = 0
resolutions (e ∷ es) = is_resolution e + resolutions es

resolutions-append :
    (xs ys : List ChargebackEvent) → resolutions (xs ++ ys) ≡ resolutions xs + resolutions ys
resolutions-append [] ys = omega arith
resolutions-append (x ∷ xs) ys = omega (arith, resolutions-append xs ys)

-- How many ends may still come.
abbrev pub may_end : ChargebackStatus → ℕ
may_end opened = 1
may_end defended = 1
may_end accepted = 0
may_end reversed = 0

store-resolutions :
    (call : Call) (now : Time) (c : Chargeback)
    → c.events ≡ []
    → resolutions (store c (perform call now c)).0 + may_end (store c (perform call now c)).1.status
      ≡ may_end c.status
unfolding defend resolve transition search_table
store-resolutions call now c h = ground arith

store-drained :
    (call : Call) (now : Time) (c : Chargeback)
    → c.events ≡ []
    → (store c (perform call now c)).1.events ≡ []
unfolding defend resolve transition search_table
store-drained call now c h = ground arith

-- Over any sequence of calls a dispute is announced as ended exactly when its status becomes an end,
-- accepted or reversed: never twice, and never without the status.
pub resolutions-run_calls :
    (calls : List (Time × Call)) (c : Chargeback)
    → c.events ≡ []
    → resolutions (run_calls calls c).0 + may_end (run_calls calls c).1.status ≡ may_end c.status
unfolding run_calls
resolutions-run_calls [] c h = omega arith
resolutions-run_calls ((now, call) ∷ calls) c h =
    let (sent, d) = store c (perform call now c) in
    omega (
      arith,
      resolutions-append sent (run_calls calls d).0,
      store-resolutions call now c h,
      resolutions-run_calls calls d (store-drained call now c h),
    )

abbrev pub AllAfter : Time → List (Time × Call) → Type 0
AllAfter deadline = All (λ call. deadline < call.0)

store_undefended :
    (call : Call) (now : Time) (c : Chargeback)
    → c.status ≢ defended
    → c.deadline < now
    → (store c (perform call now c)).1.status ≢ defended
unfolding defend resolve transition search_table
store_undefended call now c h late = ground arith

store_deadline :
    (call : Call) (now : Time) (c : Chargeback)
    → c.deadline ≡ (store c (perform call now c)).1.deadline
unfolding defend resolve transition search_table
store_deadline call now c = ground arith

-- After its deadline a dispute cannot be defended any more: in every sequence of calls after it
-- a dispute that is not defended stays undefended.
pub run_calls_after_deadline :
    (calls : List (Time × Call)) (c : Chargeback)
    → c.status ≢ defended
    → AllAfter c.deadline calls
    → (run_calls calls c).1.status ≢ defended
unfolding run_calls
run_calls_after_deadline [] c h a = h
run_calls_after_deadline ((now, call) ∷ calls) c h (late, a) =
    let d = (store c (perform call now c)).1 in
    run_calls_after_deadline calls d (store_undefended call now c h late)
      (subst (λ t. AllAfter t calls) (store_deadline call now c) a)
