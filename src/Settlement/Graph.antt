-- ===== src/Settlement/Graph.antt =====
-- The life of a settlement at the bank, and every method against it.
use adquirente.Base.{Bool, true, false, ◌≡◌, ◌⊎◌, String, none, some, List, [], ◌∷◌, ◌++◌}
use adquirente.Base.Int.{pos}
use adquirente.Base.Int64.{add64}
use adquirente.Shared.Error.{Outcome, invalid_transition}
use adquirente.Shared.Time.{Time}
use adquirente.Shared.Event.{new_base_event}
use adquirente.Settlement.{
  SettlementStatus, pending, sent, confirmed, failed, Settlement, SettlementEvent,
  settlement_completed, settlement_failed, mark_sent, mark_confirmed, mark_failed,
}

infix 40 ◌⟶◌
pub data ◌⟶◌ : SettlementStatus → SettlementStatus → Type 0 where
  sending : pending ⟶ sent
  confirmation : sent ⟶ confirmed
  rejection : pending ⟶ failed
  return : sent ⟶ failed

pub data Call : Type 0 where
  send_call : (external_ref : String) → Call
  confirm_call : (event_id : String) → Call
  fail_call : (event_id : String) → (reason : String) → Call

abbrev pub perform : Call → Time → Settlement → Outcome Settlement
perform (send_call ref) now s = mark_sent ref now s
perform (confirm_call id) now s = mark_confirmed id now s
perform (fail_call id reason) now s = mark_failed id reason now s

abbrev pub target : Call → SettlementStatus
target (send_call ref) = sent
target (confirm_call id) = confirmed
target (fail_call id reason) = failed

-- What a successful call announces.
abbrev pub announced : Call → Time → Settlement → List SettlementEvent
announced (send_call ref) now s = []
announced (confirm_call id) now s =
    settlement_completed (record {
      base = new_base_event id "settlement.completed" s.id now;
      settlement_id = s.id;
      merchant_id = s.merchant_id;
      date = s.date;
      total = s.total;
      to_merchant = s.to_merchant;
      to_creditors = s.to_creditors;
      retained = s.retained;
      receivable_ids = s.receivable_ids;
    })
    ∷ []
announced (fail_call id reason) now s =
    settlement_failed (record {
      base = new_base_event id "settlement.failed" s.id now;
      settlement_id = s.id;
      merchant_id = s.merchant_id;
      date = s.date;
      reason = reason;
      receivable_ids = s.receivable_ids;
    })
    ∷ []

-- The references that a call leaves in the settlement.
abbrev pub noted : Call → Settlement → Settlement
noted (send_call ref) s = record s { external_ref = ref }
noted (confirm_call id) s = s
noted (fail_call id reason) s = record s { failure_reason = reason }

abbrev pub advanced : Call → Time → Settlement → Settlement
advanced c now s = record (noted c s) {
  status = target c;
  updated_at = now;
  version = add64 s.version (pos 1);
  events = s.events ++ announced c now s;
}

-- Whether a test allows the edge.
abbrev Allows : Bool → SettlementStatus → SettlementStatus → Type 0
Allows allowed from to = ((from ⟶ to) × (allowed ≡ true)) ⊎ (¬ (from ⟶ to) × (allowed ≡ false))

-- How a call ends: along an edge, or refused.
abbrev pub Performs : Call → Time → Settlement → Type 0
Performs c now s =
    ((s.status ⟶ target c) × (perform c now s ≡ (advanced c now s, none)))
    ⊎ (¬ (s.status ⟶ target c) × (perform c now s ≡ (s, some invalid_transition)))
