-- ===== src/Application/Scheduling.antt =====
-- internal/application/receivable/schedule.go: the consumer that turns a captured sale into its
-- receivables, and takes them back when the sale is canceled. The decoding of a payload from JSON is
-- a parameter.
pub mod Effect
pub mod Delivery
use adquirente.Base.{
  ℕ, suc, Bool, true, false, not, String, str_eq, Option, none, some, List, [], ◌∷◌, if◌then◌else◌,
}
use adquirente.Base.Int.{ℤ, pos, ltb_ℤ, pos_part}
use adquirente.Shared.Error.{
  Error, Result, ok, err, permanent, external, index_out_of_range, Outcome,
}
use adquirente.Shared.Time.{Time}
use adquirente.Shared.Calendar.{BusinessCalendar}
use adquirente.Merchant.{Merchant}
use adquirente.Transaction.{Transaction, TransactionCaptured, TransactionCanceled}
use adquirente.Receivable.{
  Receivable, ReceivablesScheduled, status_eq, scheduled, cancel, new_receivables_scheduled,
}
use adquirente.Receivable.Schedule.{schedule}
use adquirente.Receivable.Units.{group_units}
use adquirente.Ledger.{Entry, for_scheduled, for_chargeback}
use adquirente.Store.{
  World, Action, OutboxEvent, scheduled_event, units_registered, pure, raise, lift, call, ◌>>=◌,
  unit_of_work,
}
use adquirente.Store.Sales.{find}
use adquirente.Store.Shops.{find_merchant}
use adquirente.Store.Dues.{save_all, list_by_transaction, ListFilter, list_by_merchant}
use adquirente.Store.Books.{append_events, append_entries, mark_if_new}
use adquirente.Application.Disputes.{dispute_one, book_changes}

-- The scheduler's fields, the identifiers that a run draws, and the two decoders.
pub record Scheduler (Payload : Type 0) : Type 0 where
  pub calendar : BusinessCalendar
  pub now : Time
  pub receivable_id : ℕ → String
  pub entry_id : ℕ → String
  pub reversal_id : ℕ → ℕ → String
  pub event_id : String
  pub by_installment : List Receivable → List Receivable
  pub captured_of : Payload → Option TransactionCaptured
  pub canceled_of : Payload → Option TransactionCanceled

abbrev pub consumer_name : String
consumer_name = "scheduler"

-- `if !isNew { return nil }`
abbrev pub after_mark : {A : Type 0} → A → Action A → Bool → Action A
after_mark nothing rest true = rest
after_mark nothing rest false = pure nothing

unfoldable pub once : {A : Type 0} → A → Action A → String → Action A
once nothing rest id = mark_if_new consumer_name id >>= after_mark nothing rest

abbrev pub as_permanent : {A : Type 0} → Result A → Result A
as_permanent (ok a) = ok a
as_permanent (err e) = err (permanent e)

abbrev pub announced : Option ReceivablesScheduled → Result (List OutboxEvent)
announced (some ev) = ok (scheduled_event ev ∷ [])
announced none = err index_out_of_range

module _ {Payload : Type 0} (s : Scheduler Payload) where
  -- From the captured transaction to the outbox.
  unfoldable pub save_agenda : Transaction → Merchant → Action (List Receivable)
  save_agenda tx m =
      lift (as_permanent (schedule s.receivable_id tx m.fee_plan s.calendar s.now)) >>= λ list.
      save_all list >>= λ _. append_entries (for_scheduled s.entry_id list s.now) >>= λ _.
      lift (announced (new_receivables_scheduled s.event_id list s.now)) >>= λ evs.
      append_events evs >>= λ _. pure list

  unfoldable pub agenda : TransactionCaptured → Action (List Receivable)
  agenda ev = find ev.merchant_id ev.base.aggregate >>= λ tx.
      find_merchant ev.merchant_id >>= λ m. save_agenda tx m

  -- The registry is told after the commit, and its error is only logged.
  abbrev pub registered : List Receivable → Action (Unit {0})
  registered [] = pure tt
  registered (r ∷ rs) = call (units_registered (group_units (r ∷ rs)))

  unfoldable pub on_captured : TransactionCaptured → Action (Unit {0})
  on_captured ev = unit_of_work (once [] (agenda ev) ev.base.id) >>= registered

  -- The loop over the receivables of the canceled sale, from number k on.
  unfoldable pub cancel_all : ℕ → List Receivable → Result (List Receivable × List Entry)
  cancel_all k [] = ok ([], [])
  cancel_all k (r ∷ rs) =
      let rest = cancel_all (suc k) rs in
      if not (status_eq r.status scheduled)
      then rest
      else dispute_one (for_chargeback (s.reversal_id k) r s.now) (cancel s.now r) rest

  unfoldable pub take_back : TransactionCanceled → Action (Unit {0})
  take_back ev = list_by_transaction s.by_installment ev.base.aggregate >>= λ list.
      lift (cancel_all 0 list) >>= book_changes

  unfoldable pub on_canceled : TransactionCanceled → Action (Unit {0})
  on_canceled ev = unit_of_work (once tt (take_back ev) ev.base.id)

  abbrev pub decoded : {E : Type 0} → (E → Action (Unit {0})) → Option E → Action (Unit {0})
  decoded on (some ev) = on ev
  decoded on none = raise (permanent (external "invalid payload"))

  unfoldable pub handle : String → Payload → Action (Unit {0})
  handle event_type payload =
      if str_eq event_type "transaction.captured"
      then decoded on_captured (s.captured_of payload)
      else if str_eq event_type "transaction.canceled"
      then decoded on_canceled (s.canceled_of payload)
      else pure tt

-- `Query.List`: the limit is a page of 100 unless it is between 1 and 500.
abbrev pub page_limit : ℤ → ℤ
page_limit n = if ltb_ℤ n (pos 1) then pos 100 else if ltb_ℤ (pos 500) n then pos 100 else n

-- `limit` is the limit that the caller gives; the filter's own is not read.
abbrev pub list_receivables :
    (List Receivable → List Receivable) → String → ListFilter → ℤ → Action (List Receivable)
list_receivables sorted merchant_id f limit =
    list_by_merchant sorted merchant_id (record f { limit = pos_part (page_limit limit) })
