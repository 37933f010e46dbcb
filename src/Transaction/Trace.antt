-- ===== src/Transaction/Trace.antt =====
-- What holds of a transaction over any sequence of calls. Each call runs on the stored transaction,
-- as in a use case: after a success the events go to the outbox and the new value is stored; after
-- an error nothing is stored.
use adquirente.Base.{
  ℕ, ◌+◌, ◌≤◌, ◌≡◌, refl, Bool, true, false, Option, none, some, List, [], ◌∷◌, ◌++◌, arith,
}
use adquirente.Shared.Error.{Outcome}
use adquirente.Shared.Time.{Time}
use adquirente.Transaction.{
  Status, pending, authorized, denied, captured, canceled, settled, chargebacked, Transaction,
  TransactionEvent, transaction_authorized, transaction_denied, transaction_captured,
  transaction_canceled, transaction_chargebacked, transition, search_table, authorize, deny,
  capture, cancel, mark_settled, chargeback, pull_events,
}
use adquirente.Transaction.Graph.{Call, settle_call, perform}

-- One call on the stored transaction: the events for the outbox, and what is stored after it.
abbrev pub store : Transaction → Outcome Transaction → List TransactionEvent × Transaction
store old (t, none) = pull_events t
store old (t, some e) = ([], old)

pub run : List Call → Transaction → List TransactionEvent × Transaction
run [] t = ([], t)
run (c ∷ cs) t =
    let (sent, s) = store t (perform c t) in let (later, u) = run cs s in (sent ++ later, u)

abbrev is_some : Option Time → Bool
is_some none = false
is_some (some t) = true

abbrev was_authorized : Status → Bool
was_authorized pending = false
was_authorized denied = false
was_authorized _ = true

abbrev is_canceled : Status → Bool
is_canceled canceled = true
is_canceled _ = false

-- Whether the sale was captured, which a canceled one may or may not have been.
abbrev was_captured : Status → Bool → Bool
was_captured captured b = true
was_captured settled b = true
was_captured chargebacked b = true
was_captured canceled b = b
was_captured _ b = false

-- The time stamps agree with the status, and no event is left in the stored value.
pub record IsConsistent (t : Transaction) : Type 0 where
  pub authorized_when : is_some t.authorized_at ≡ was_authorized t.status
  pub captured_when : is_some t.captured_at ≡ was_captured t.status (is_some t.captured_at)
  pub canceled_when : is_some t.canceled_at ≡ is_canceled t.status
  pub drained : t.events ≡ []

store-IsConsistent :
    (c : Call) (t : Transaction) → IsConsistent t → IsConsistent (store t (perform c t)).1
unfolding authorize deny capture cancel mark_settled chargeback transition search_table
store-IsConsistent settle_call t h = ground arith
store-IsConsistent _ t h = ground arith

-- From a consistent transaction every sequence of calls stores a consistent one: it has an
-- authorization time exactly if it was authorized, a capture time if it is captured, settled or
-- chargebacked and none before a capture, and a cancellation time exactly if it is canceled.
pub run-IsConsistent :
    (cs : List Call) (t : Transaction) → IsConsistent t → IsConsistent (run cs t).1
unfolding run
run-IsConsistent [] t h = h
run-IsConsistent (c ∷ cs) t h =
    run-IsConsistent cs (store t (perform c t)).1 (store-IsConsistent c t h)

abbrev pub is_capture : TransactionEvent → ℕ
is_capture (transaction_captured e) = 1
is_capture (transaction_authorized e) = 0
is_capture (transaction_denied e) = 0
is_capture (transaction_canceled e) = 0
is_capture (transaction_chargebacked e) = 0

-- How many of the events announce a capture.
abbrev pub captures : List TransactionEvent → ℕ
captures [] = 0
captures (e ∷ es) = is_capture e + captures es

captures-append : (xs ys : List TransactionEvent) → captures (xs ++ ys) ≡ captures xs + captures ys
captures-append [] ys = omega arith
captures-append (x ∷ xs) ys = omega (arith, captures-append xs ys)

-- How many captures may still come.
abbrev pub may_capture : Status → ℕ
may_capture pending = 1
may_capture authorized = 1
may_capture _ = 0

store-captures :
    (c : Call) (t : Transaction)
    → t.events ≡ []
    → let (sent, s) = store t (perform c t) in
      captures sent + may_capture s.status ≤ may_capture t.status
unfolding authorize deny capture cancel mark_settled chargeback transition search_table
store-captures settle_call t h = ground arith
store-captures _ t h = ground arith

store-drained : (c : Call) (t : Transaction) → t.events ≡ [] → (store t (perform c t)).1.events ≡ []
unfolding authorize deny capture cancel mark_settled chargeback transition search_table
store-drained settle_call t h = ground arith
store-drained _ t h = ground arith

-- Over any sequence of calls at most one capture is announced, and none for a sale that is already
-- captured, or denied, or canceled: the schedule of receivables starts at most once for each sale.
pub captures-run :
    (cs : List Call) (t : Transaction)
    → t.events ≡ []
    → captures (run cs t).0 + may_capture (run cs t).1.status ≤ may_capture t.status
unfolding run
captures-run [] t h = omega arith
captures-run (c ∷ cs) t h =
    let (sent, s) = store t (perform c t) in
    omega (
      arith,
      captures-append sent (run cs s).0,
      store-captures c t h,
      captures-run cs s (store-drained c t h),
    )

-- The statuses that nothing leaves.
abbrev pub is_final : Status → Bool
is_final denied = true
is_final canceled = true
is_final chargebacked = true
is_final _ = false

store_of_final :
    (c : Call) (t : Transaction) → is_final t.status ≡ true → store t (perform c t) ≡ ([], t)
unfolding authorize deny capture cancel mark_settled chargeback transition search_table
store_of_final settle_call t h = ground arith
store_of_final _ t h = ground arith

-- A denied, canceled or chargebacked transaction stays as it is under every sequence of calls, and
-- sends no event.
pub run_of_final :
    (cs : List Call) (t : Transaction) → is_final t.status ≡ true → run cs t ≡ ([], t)
unfolding run
run_of_final [] t h = refl
run_of_final (c ∷ cs) t h = rw (store_of_final c t h) (rw (run_of_final cs t h))
