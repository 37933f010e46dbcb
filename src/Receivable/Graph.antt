-- ===== src/Receivable/Graph.antt =====
-- The transition diagram of a receivable, and every method against it.
use adquirente.Base.{◌≡◌, refl, ◌⊎◌, inl, inr, String, none, some}
use adquirente.Base.Int.{pos}
use adquirente.Base.Int64.{add64}
use adquirente.Shared.Error.{Outcome, invalid_transition}
use adquirente.Shared.Time.{Time}
use adquirente.Receivable.{
  Status, scheduled, anticipated, settled, canceled, chargebacked, transitions, Receivable,
  search_table, transition, anticipate, settle, cancel, chargeback,
}

infix 40 ◌⟶◌
pub data ◌⟶◌ : Status → Status → Type 0 where
  advance : scheduled ⟶ anticipated
  payout : scheduled ⟶ settled
  cancellation : scheduled ⟶ canceled
  dispute : scheduled ⟶ chargebacked
  late_payout : anticipated ⟶ settled
  late_dispute : anticipated ⟶ chargebacked

abbrev pub moved : Status → Time → Receivable → Receivable
moved to now r = record r { status = to; version = add64 r.version (pos 1); updated_at = now }

-- A change of status happens along an edge, counting a version and stamping the time, or is
-- refused with no change.
abbrev Follows : Status → Status → Time → Receivable → Outcome Receivable → Type 0
Follows from to now r o =
    ((from ⟶ to) × (o ≡ (moved to now r, none)))
    ⊎ (¬ (from ⟶ to) × (o ≡ (r, some invalid_transition)))

search_table-Follows :
    (from to : Status) (now : Time) (r : Receivable)
    → Follows from to now r (search_table to now (transitions from) r)
unfolding search_table
search_table-Follows scheduled anticipated now r = inl (advance, refl)
search_table-Follows scheduled settled now r = inl (payout, refl)
search_table-Follows scheduled canceled now r = inl (cancellation, refl)
search_table-Follows scheduled chargebacked now r = inl (dispute, refl)
search_table-Follows anticipated settled now r = inl (late_payout, refl)
search_table-Follows anticipated chargebacked now r = inl (late_dispute, refl)
search_table-Follows _ _ now r = inr (λ e. elim e [ ], refl)

pub transition-Follows :
    (to : Status) (now : Time) (r : Receivable) → Follows r.status to now r (transition to now r)
unfolding transition
transition-Follows to now r = search_table-Follows r.status to now r

pub data Call : Type 0 where
  anticipate_call : String → Call
  settle_call : String → Call
  cancel_call : Call
  chargeback_call : Call

abbrev pub perform : Call → Time → Receivable → Outcome Receivable
perform (anticipate_call id) now r = anticipate id now r
perform (settle_call id) now r = settle id now r
perform cancel_call now r = cancel now r
perform chargeback_call now r = chargeback now r

abbrev pub target : Call → Status
target (anticipate_call id) = anticipated
target (settle_call id) = settled
target cancel_call = canceled
target chargeback_call = chargebacked

-- What a successful call makes of the receivable.
abbrev pub changed : Call → Time → Receivable → Receivable
changed (anticipate_call id) now r = record (moved anticipated now r) { anticipation_id = id }
changed (settle_call id) now r = record (moved settled now r) { settlement_id = id }
changed cancel_call now r = moved canceled now r
changed chargeback_call now r = moved chargebacked now r

-- How a call ends: along an edge of the diagram, or refused.
abbrev pub Performs : Call → Time → Receivable → Type 0
Performs c now r =
    ((r.status ⟶ target c) × (perform c now r ≡ (changed c now r, none)))
    ⊎ (¬ (r.status ⟶ target c) × (perform c now r ≡ (r, some invalid_transition)))

-- Every method of a receivable succeeds exactly along an edge of the diagram, and then changes the
-- status, the version, the time stamp and the reference it is given, and nothing else; where there
-- is no edge it reports an invalid transition and the receivable is unchanged.
pub perform_cases : (c : Call) (now : Time) (r : Receivable) → Performs c now r
unfolding anticipate settle cancel chargeback
perform_cases (anticipate_call id) now r = elim (transition-Follows anticipated now r) [
  | inl (edge, eq) ↦ inl (edge, rw eq)
  | inr (no_edge, eq) ↦ inr (no_edge, rw eq)
]
perform_cases (settle_call id) now r = elim (transition-Follows settled now r) [
  | inl (edge, eq) ↦ inl (edge, rw eq)
  | inr (no_edge, eq) ↦ inr (no_edge, rw eq)
]
perform_cases cancel_call now r = transition-Follows canceled now r
perform_cases chargeback_call now r = transition-Follows chargebacked now r
