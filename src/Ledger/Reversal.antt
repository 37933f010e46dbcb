-- ===== src/Ledger/Reversal.antt =====
-- What a chargeback does to the accounts that the schedule of a receivable moved.
use adquirente.Base.{ℕ, ◌%◌, ◌≡◌, refl, String, List, [], ◌∷◌, ◌++◌, if◌then◌else◌, arith}
use adquirente.Base.Int64.{full_range}
use adquirente.Shared.Money.{Money, sum}
use adquirente.Shared.Money.Sums.{bits_total, sum-bits, sum-Fits}
use adquirente.Base.Int64.{eq_of_bits}
use adquirente.Shared.Time.{Time}
use adquirente.Receivable.{Receivable}
use adquirente.Ledger.{
  Account, receivable_from_issuer, payable_to_merchant, revenue_fees, revenue_anticipation,
  bank_outgoing, chargeback_loss, Entry, scheduled_from, for_scheduled, for_chargeback, account_eq,
}
use adquirente.Ledger.Balance.{zero_bits}

-- The debits and the credits of one account.
abbrev pub debits_of : Account → List Entry → List Money
debits_of a [] = []
debits_of a (e ∷ es) = if account_eq e.account a then e.debit ∷ debits_of a es else debits_of a es

abbrev pub credits_of : Account → List Entry → List Money
credits_of a [] = []
credits_of a (e ∷ es) =
    if account_eq e.account a then e.credit ∷ credits_of a es else credits_of a es

-- An account is level when its debits add up to its credits.
abbrev pub IsLevel : Account → List Entry → Type 0
IsLevel a es = sum (debits_of a es) ≡ sum (credits_of a es)

level :
    (ds cs : List Money) → bits_total ds % full_range ≡ bits_total cs % full_range → sum ds ≡ sum cs
level ds cs h =
    eq_of_bits (sum ds) (sum cs) (sum-Fits ds) (sum-Fits cs)
      (omega (arith, sum-bits ds, sum-bits cs))

-- A chargeback of a scheduled receivable undoes its schedule in every account: the debits of each
-- account add up to its credits again.
pub chargeback-IsLevel :
    (new_id late_id : ℕ → String) (r : Receivable) (at later : Time) (a : Account)
    → IsLevel a (for_scheduled new_id (r ∷ []) at ++ for_chargeback late_id r later)
unfolding scheduled_from
chargeback-IsLevel new_id late_id r at later receivable_from_issuer =
    level _ _ (omega (arith, zero_bits))
chargeback-IsLevel new_id late_id r at later payable_to_merchant =
    level _ _ (omega (arith, zero_bits))
chargeback-IsLevel new_id late_id r at later revenue_fees = level _ _ (omega (arith, zero_bits))
chargeback-IsLevel new_id late_id r at later revenue_anticipation = refl
chargeback-IsLevel new_id late_id r at later bank_outgoing = refl
chargeback-IsLevel new_id late_id r at later chargeback_loss = refl
