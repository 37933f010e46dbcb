-- ===== src/Transaction/Graph.antt =====
-- The transition diagram of a transaction, and every method against it.
use adquirente.Base.{◌≡◌, refl, ◌⊎◌, inl, inr, String, none, some}
use adquirente.Base.Int.{pos}
use adquirente.Base.Int64.{add64}
use adquirente.Shared.Error.{Outcome, invalid_transition}
use adquirente.Shared.Time.{Time}
use adquirente.Transaction.{
  Status, pending, authorized, denied, captured, canceled, settled, chargebacked, transitions,
  Transaction, transition, and_then, search_table, authorize, deny, capture, cancel, mark_settled,
  chargeback,
}

infix 40 ◌⟶◌
pub data ◌⟶◌ : Status → Status → Type 0 where
  approval : pending ⟶ authorized
  denial : pending ⟶ denied
  capturing : authorized ⟶ captured
  reversal : authorized ⟶ canceled
  refund : captured ⟶ canceled
  payout : captured ⟶ settled
  dispute : captured ⟶ chargebacked
  late_dispute : settled ⟶ chargebacked

abbrev pub moved : Status → Transaction → Transaction
moved to t = record t { status = to; version = add64 t.version (pos 1) }

-- A change of status happens along an edge, counting a version, or is refused with no change.
abbrev Follows : Status → Status → Transaction → Outcome Transaction → Type 0
Follows from to t r =
    ((from ⟶ to) × (r ≡ (moved to t, none))) ⊎ (¬ (from ⟶ to) × (r ≡ (t, some invalid_transition)))

search_table-Follows :
    (from to : Status) (t : Transaction) → Follows from to t (search_table to (transitions from) t)
unfolding search_table
search_table-Follows pending authorized t = inl (approval, refl)
search_table-Follows pending denied t = inl (denial, refl)
search_table-Follows authorized captured t = inl (capturing, refl)
search_table-Follows authorized canceled t = inl (reversal, refl)
search_table-Follows captured canceled t = inl (refund, refl)
search_table-Follows captured settled t = inl (payout, refl)
search_table-Follows captured chargebacked t = inl (dispute, refl)
search_table-Follows settled chargebacked t = inl (late_dispute, refl)
search_table-Follows _ _ t = inr (λ e. elim e [ ], refl)

pub transition-Follows : (to : Status) (t : Transaction) → Follows t.status to t (transition to t)
unfolding transition
transition-Follows to t = search_table-Follows t.status to t

-- A call of one of the methods, with its arguments.
pub data Call : Type 0 where
  authorize_call : String → String → String → Time → Call
  deny_call : String → String → Time → Call
  capture_call : String → Time → Call
  cancel_call : String → Time → Call
  settle_call : Call
  chargeback_call : String → String → Time → Call

abbrev pub perform : Call → Transaction → Outcome Transaction
perform (authorize_call event_id code nsu now) t = authorize event_id code nsu now t
perform (deny_call event_id response_code now) t = deny event_id response_code now t
perform (capture_call event_id now) t = capture event_id now t
perform (cancel_call event_id now) t = cancel event_id now t
perform settle_call t = mark_settled t
perform (chargeback_call event_id reason now) t = chargeback event_id reason now t

-- The status that a call asks for.
abbrev pub target : Call → Status
target (authorize_call _ _ _ _) = authorized
target (deny_call _ _ _) = denied
target (capture_call _ _) = captured
target (cancel_call _ _) = canceled
target settle_call = settled
target (chargeback_call _ _ _) = chargebacked

-- What no method changes.
abbrev pub SameSale : Transaction → Transaction → Type 0
SameSale s t =
    (s.id ≡ t.id)
    × (s.merchant_id ≡ t.merchant_id)
    × (s.amount ≡ t.amount)
    × (s.product ≡ t.product)
    × (s.installments ≡ t.installments)
    × (s.card ≡ t.card)

-- How a call that asks for a status ends.
abbrev pub Moves : Status → Transaction → Outcome Transaction → Type 0
Moves to t (s, e) =
    ((t.status ⟶ to)
      × (e ≡ none)
      × (s.status ≡ to)
      × (s.version ≡ add64 t.version (pos 1))
      × SameSale s t)
    ⊎ (¬ (t.status ⟶ to) × (e ≡ some invalid_transition) × (s ≡ t))

and_then-Moves :
    (to : Status) (t : Transaction) (f : Transaction → Transaction)
    → (f (moved to t)).status ≡ to
    → (f (moved to t)).version ≡ add64 t.version (pos 1)
    → SameSale (f (moved to t)) t
    → Moves to t (and_then (transition to t) f)
and_then-Moves to t f status version same = elim (transition-Follows to t) [
  | inl (edge, eq) ↦ inl (edge, rw eq, rw eq status, rw eq version, rw eq same)
  | inr (no_edge, eq) ↦ inr (no_edge, rw eq, rw eq)
]

unchanged : (t : Transaction) → SameSale t t
unchanged t = (refl, refl, refl, refl, refl, refl)

mark_settled-Moves : (t : Transaction) → Moves settled t (mark_settled t)
unfolding mark_settled
mark_settled-Moves t = elim (transition-Follows settled t) [
  | inl (edge, eq) ↦ inl (edge, rw eq, rw eq, rw eq, rw eq (unchanged t))
  | inr (no_edge, eq) ↦ inr (no_edge, rw eq, rw eq)
]

-- Every method succeeds exactly along an edge of the diagram. It then has the status it asks for,
-- the next version, and the same identity, merchant, amount, product, instalments and card; where
-- there is no edge it reports an invalid transition and the transaction is unchanged.
pub perform-Moves : (c : Call) (t : Transaction) → Moves (target c) t (perform c t)
unfolding authorize deny capture cancel chargeback
perform-Moves (authorize_call event_id code nsu now) t =
    and_then-Moves authorized t _ refl refl (unchanged t)
perform-Moves (deny_call event_id code now) t = and_then-Moves denied t _ refl refl (unchanged t)
perform-Moves (capture_call event_id now) t = and_then-Moves captured t _ refl refl (unchanged t)
perform-Moves (cancel_call event_id now) t = and_then-Moves canceled t _ refl refl (unchanged t)
perform-Moves settle_call t = mark_settled-Moves t
perform-Moves (chargeback_call event_id reason now) t =
    and_then-Moves chargebacked t _ refl refl (unchanged t)
