-- ===== src/Ledger.antt =====
-- internal/domain/ledger/entry.go: the double entries of every movement of money. The identifiers
-- that `NewID("le")` draws come from `new_id`, numbered in the order in which they are drawn.
pub mod Balance
pub mod Reversal
use adquirente.Base.{ℕ, ◌+◌, Bool, String, List, [], ◌∷◌, ◌++◌, ◌==◌, if◌then◌else◌}
use adquirente.Base.Int.{pos, eqb_ℤ}
use adquirente.Base.Int64.{add64}
use adquirente.Shared.Money.{Money}
use adquirente.Shared.Time.{Time}
use adquirente.Receivable.{Receivable}
use adquirente.Settlement.{Settlement}
use adquirente.Anticipation.{Anticipation}

pub data Account : Type 0 where
  receivable_from_issuer payable_to_merchant revenue_fees : Account
  revenue_anticipation bank_outgoing chargeback_loss : Account

abbrev pub account_code : Account → ℕ
account_code receivable_from_issuer = 0
account_code payable_to_merchant = 1
account_code revenue_fees = 2
account_code revenue_anticipation = 3
account_code bank_outgoing = 4
account_code chargeback_loss = 5

abbrev pub account_eq : Account → Account → Bool
account_eq a b = account_code a == account_code b

pub record Entry : Type 0 where
  pub id : String
  pub account : Account
  pub merchant_id : String
  pub debit : Money
  pub credit : Money
  pub ref_type : String
  pub ref_id : String
  pub at : Time

abbrev pub debit : String → Account → String → Money → String → String → Time → Entry
debit id account merchant_id v ref_type ref_id at = record {
  id = id;
  account = account;
  merchant_id = merchant_id;
  debit = v;
  credit = pos 0;
  ref_type = ref_type;
  ref_id = ref_id;
  at = at;
}

abbrev pub credit : String → Account → String → Money → String → String → Time → Entry
credit id account merchant_id v ref_type ref_id at = record {
  id = id;
  account = account;
  merchant_id = merchant_id;
  debit = pos 0;
  credit = v;
  ref_type = ref_type;
  ref_id = ref_id;
  at = at;
}

-- The loop of `ForScheduled`, once k entries are made.
unfoldable pub scheduled_from : (ℕ → String) → ℕ → List Receivable → Time → List Entry
scheduled_from new_id k [] at = []
scheduled_from new_id k (r ∷ rs) at =
    debit (new_id k) receivable_from_issuer r.merchant_id r.gross "receivable" r.id at
    ∷ credit (new_id (k + 1)) payable_to_merchant r.merchant_id r.net "receivable" r.id at
    ∷ credit (new_id (k + 2)) revenue_fees r.merchant_id r.fee "receivable" r.id at
    ∷ scheduled_from new_id (k + 3) rs at

abbrev pub for_scheduled : (ℕ → String) → List Receivable → Time → List Entry
for_scheduled new_id list at = scheduled_from new_id 0 list at

abbrev pub for_anticipation : (ℕ → String) → Anticipation → Time → List Entry
for_anticipation new_id a at =
    debit (new_id 0) payable_to_merchant a.merchant_id a.gross "anticipation" a.id at
    ∷ credit (new_id 1) bank_outgoing a.merchant_id a.net "anticipation" a.id at
    ∷ credit (new_id 2) revenue_anticipation a.merchant_id a.discount "anticipation" a.id at
    ∷ []

abbrev pub for_settlement : (ℕ → String) → Settlement → Time → List Entry
for_settlement new_id s at =
    let paid = add64 s.to_merchant s.to_creditors in
    if eqb_ℤ paid (pos 0)
    then []
    else debit (new_id 0) payable_to_merchant s.merchant_id paid "settlement" s.id at
      ∷ credit (new_id 1) bank_outgoing s.merchant_id paid "settlement" s.id at
      ∷ []

abbrev pub for_chargeback : (ℕ → String) → Receivable → Time → List Entry
for_chargeback new_id r at =
    credit (new_id 0) receivable_from_issuer r.merchant_id r.gross "chargeback" r.id at
    ∷ debit (new_id 1) payable_to_merchant r.merchant_id r.net "chargeback" r.id at
    ∷ debit (new_id 2) revenue_fees r.merchant_id r.fee "chargeback" r.id at
    ∷ []

abbrev pub for_chargeback_anticipated : (ℕ → String) → Receivable → Time → List Entry
for_chargeback_anticipated new_id r at =
    credit (new_id 0) receivable_from_issuer r.merchant_id r.gross "chargeback" r.id at
    ∷ debit (new_id 1) chargeback_loss r.merchant_id r.net "chargeback" r.id at
    ∷ debit (new_id 2) revenue_fees r.merchant_id r.fee "chargeback" r.id at
    ∷ []

-- The loop of `Balanced`: d and c are its variables.
unfoldable pub balanced_from : Money → Money → List Entry → Bool
balanced_from d c [] = eqb_ℤ d c
balanced_from d c (e ∷ es) = balanced_from (add64 d e.debit) (add64 c e.credit) es

unfoldable pub balanced : List Entry → Bool
balanced entries = balanced_from (pos 0) (pos 0) entries
