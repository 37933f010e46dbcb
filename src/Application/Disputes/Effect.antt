-- ===== src/Application/Disputes/Effect.antt =====
-- What the opening of a dispute does to the receivables, the ledger and the tables.
use mathlib.Core.Path.{subst}
use adquirente.Base.{ℕ, suc, ◌≡◌, refl, sym, inl, inr, true, String, none, List, [], ◌∷◌, ◌++◌, All}
use adquirente.Shared.Error.{ok}
use adquirente.Shared.Time.{Time}
use adquirente.Receivable as Due
use adquirente.Receivable.{Receivable, chargeback}
use adquirente.Receivable.Graph.{◌⟶◌, dispute, late_dispute, chargeback_call, perform_cases, moved}
use adquirente.Ledger.{balanced}
use adquirente.Ledger.Balance.{
  NetAdds, Movement, chargeback_move, late_chargeback_move, IsSound, book, book-balanced,
}
use adquirente.Application.Disputes.{reversed_entries, dispute_next, dispute_all}

-- The receivables that a dispute takes back, as they are after it.
abbrev pub taken_back : Due.Status → Time → Receivable → List Receivable
taken_back Due.scheduled now r = moved Due.chargebacked now r ∷ []
taken_back Due.anticipated now r = moved Due.chargebacked now r ∷ []
taken_back _ now r = []

abbrev pub all_taken_back : Time → List Receivable → List Receivable
all_taken_back now [] = []
all_taken_back now (r ∷ rs) = taken_back r.status now r ++ all_taken_back now rs

-- The movements of money that a dispute books.
abbrev pub reversal_of : (ℕ → String) → Due.Status → Receivable → Time → List Movement
reversal_of new_id Due.scheduled r now = chargeback_move new_id r now ∷ []
reversal_of new_id Due.anticipated r now = late_chargeback_move new_id r now ∷ []
reversal_of new_id _ r now = []

abbrev pub reversals_of : (ℕ → ℕ → String) → ℕ → List Receivable → Time → List Movement
reversals_of new_id k [] now = []
reversals_of new_id k (r ∷ rs) now =
    reversal_of (new_id k) r.status r now ++ reversals_of new_id (suc k) rs now

chargeback_open :
    (now : Time) (r : Receivable)
    → (r.status ⟶ Due.chargebacked)
    → chargeback now r ≡ (moved Due.chargebacked now r, none)
chargeback_open now r edge = elim (perform_cases chargeback_call now r) [
  | inl (e, eq) ↦ eq
  | inr (no_edge, eq) ↦ absurd (no_edge edge)
]

dispute_step :
    (new_id : ℕ → String) (st : Due.Status) (r : Receivable) (now : Time) (rs : List Receivable)
    (ms : List Movement)
    → r.status ≡ st
    → dispute_next (reversed_entries new_id st r now) (chargeback now r) (ok (rs, book ms))
      ≡ ok (taken_back st now r ++ rs, book (reversal_of new_id st r now ++ ms))
dispute_step new_id Due.scheduled r now rs ms h =
    rw (chargeback_open now r (subst (λ s. s ⟶ Due.chargebacked) (sym h) dispute))
dispute_step new_id Due.anticipated r now rs ms h =
    rw (chargeback_open now r (subst (λ s. s ⟶ Due.chargebacked) (sym h) late_dispute))
dispute_step new_id Due.settled r now rs ms h = refl
dispute_step new_id Due.canceled r now rs ms h = refl
dispute_step new_id Due.chargebacked r now rs ms h = refl

dispute_all-book :
    (new_id : ℕ → ℕ → String) (k : ℕ) (rs : List Receivable) (now : Time)
    → dispute_all new_id k rs now ≡ ok (all_taken_back now rs, book (reversals_of new_id k rs now))
unfolding dispute_all
dispute_all-book new_id k [] now = refl
dispute_all-book new_id k (r ∷ rs) now = rw (dispute_all-book new_id (suc k) rs now) (
    dispute_step (new_id k) r.status r now (all_taken_back now rs)
      (reversals_of new_id (suc k) rs now) refl)

reversal-IsSound :
    (new_id : ℕ → String) (st : Due.Status) (r : Receivable) (now : Time) (ms : List Movement)
    → NetAdds r
    → All IsSound ms
    → All IsSound (reversal_of new_id st r now ++ ms)
reversal-IsSound new_id Due.scheduled r now ms h hs = (h, hs)
reversal-IsSound new_id Due.anticipated r now ms h hs = (h, hs)
reversal-IsSound new_id Due.settled r now ms h hs = hs
reversal-IsSound new_id Due.canceled r now ms h hs = hs
reversal-IsSound new_id Due.chargebacked r now ms h hs = hs

reversals-IsSound :
    (new_id : ℕ → ℕ → String) (k : ℕ) (rs : List Receivable) (now : Time)
    → All NetAdds rs
    → All IsSound (reversals_of new_id k rs now)
reversals-IsSound new_id k [] now h = tt
reversals-IsSound new_id k (r ∷ rs) now (h, hs) =
    reversal-IsSound (new_id k) r.status r now _ h (reversals-IsSound new_id (suc k) rs now hs)

-- The loop over the receivables of a disputed sale, where each net amount is the gross amount less
-- the fee, does not fail: it takes back those that are scheduled or anticipated, leaves the others
-- out, and books the reversal of each, in their order; the entries are balanced.
pub dispute_all_lem :
    (new_id : ℕ → ℕ → String) (k : ℕ) (rs : List Receivable) (now : Time)
    → All NetAdds rs
    → (dispute_all new_id k rs now
        ≡ ok (all_taken_back now rs, book (reversals_of new_id k rs now)))
      × (balanced (book (reversals_of new_id k rs now)) ≡ true)
dispute_all_lem new_id k rs now h = (
  dispute_all-book new_id k rs now,
  book-balanced (reversals_of new_id k rs now) (reversals-IsSound new_id k rs now h),
)
