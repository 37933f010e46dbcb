-- ===== src/Merchant/Status.antt =====
-- The review of a merchant: which changes of status the methods allow.
use adquirente.Base.{true, false, refl, ◌≡◌, ◌⊎◌, inl, inr, none, some}
use adquirente.Base.Int.{pos}
use adquirente.Base.Int64.{add64}
use adquirente.Shared.Error.{Outcome, invalid_transition}
use adquirente.Shared.Time.{Time}
use adquirente.Merchant.{
  Merchant, MerchantStatus, under_review, active, blocked, approve, block, status_eq,
}

infix 40 ◌⟶◌
pub data ◌⟶◌ : MerchantStatus → MerchantStatus → Type 0 where
  approval : under_review ⟶ active
  blocking : active ⟶ blocked

-- How a method that asks for the status `to` ends: it moves along an edge, counts a version and
-- stamps the time, or it refuses and changes nothing.
abbrev pub Reviews : MerchantStatus → Time → Merchant → Outcome Merchant → Type 0
Reviews to now m r =
    ((m.status ⟶ to)
      × (r ≡ (record m { status = to; version = add64 m.version (pos 1); updated_at = now }, none)))
    ⊎ (¬ (m.status ⟶ to) × (r ≡ (m, some invalid_transition)))

under_review-cases :
    (from : MerchantStatus)
    → ((from ⟶ active) × (status_eq from under_review ≡ true))
      ⊎ (¬ (from ⟶ active) × (status_eq from under_review ≡ false))
under_review-cases under_review = inl (approval, refl)
under_review-cases _ = inr (λ e. elim e [ ], refl)

active-cases :
    (from : MerchantStatus)
    → ((from ⟶ blocked) × (status_eq from active ≡ true))
      ⊎ (¬ (from ⟶ blocked) × (status_eq from active ≡ false))
active-cases active = inl (blocking, refl)
active-cases _ = inr (λ e. elim e [ ], refl)

pub data Call : Type 0 where
  approve_call block_call : Call

abbrev pub target : Call → MerchantStatus
target approve_call = active
target block_call = blocked

abbrev pub perform : Call → Time → Merchant → Outcome Merchant
perform approve_call now m = approve now m
perform block_call now m = block now m

-- A merchant under review can be approved and an active one blocked, and no other change of status
-- is possible: a call that succeeds changes the status, the version and the time stamp, and one
-- that is refused changes nothing.
pub perform-Reviews :
    (c : Call) (now : Time) (m : Merchant) → Reviews (target c) now m (perform c now m)
unfolding approve block
perform-Reviews approve_call now m = elim (under_review-cases m.status) [
  | inl (edge, eq) ↦ inl (edge, rw eq)
  | inr (no_edge, eq) ↦ inr (no_edge, rw eq)
]
perform-Reviews block_call now m = elim (active-cases m.status) [
  | inl (edge, eq) ↦ inl (edge, rw eq)
  | inr (no_edge, eq) ↦ inr (no_edge, rw eq)
]
