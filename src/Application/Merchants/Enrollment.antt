-- ===== src/Application/Merchants/Enrollment.antt =====
-- The checks of internal/application/merchant/onboard.go, before the merchant is stored.
use adquirente.Base.{String, Option, none, some, List, if◌then◌else◌}
use adquirente.Base.Int.{ℤ}
use adquirente.Base.Texts.{Text, is_empty}
use adquirente.Shared.Error.{Result, ok, err, Outcome, ◌>>=◌}
use adquirente.Shared.Money.{Bps}
use adquirente.Shared.Time.{Time}
use adquirente.Merchant.{Merchant, Url, new_merchant, set_webhook}
use adquirente.Merchant.Accounts.{new_bank_account}
use adquirente.Merchant.Fees.{new_fee_plan}
use adquirente.Merchant.Document.{new_document}

pub record OnboardCommand : Type 0 where
  pub document : Text
  pub legal_name : Text
  pub mcc : Text
  pub bank_code : Text
  pub branch : Text
  pub account_number : Text
  pub account_kind : String
  pub debit_bps : Bps
  pub credit_bps : Bps
  pub credit_installment_bps : List (ℤ × Bps)
  pub anticipation_bps_month : Bps
  pub webhook_url : Text

-- The functions of Go's library that the use cases reach, the identifier and the time of one run.
pub record Setting : Type 0 where
  pub upper : Text → Text
  pub parse : Text → Option Url
  pub merchant_id : String
  pub now : Time

abbrev pub of_outcome : Outcome Merchant → Result Merchant
of_outcome (m, none) = ok m
of_outcome (m, some e) = err e

-- `if cmd.WebhookURL != ""`
abbrev pub with_webhook : Setting → Text → Merchant → Result Merchant
with_webhook s url m = if is_empty url then ok m else of_outcome (set_webhook s.parse url s.now m)

-- What `Onboard.Execute` makes of a command, before it stores it.
unfoldable pub enrolled : Setting → OnboardCommand → Result Merchant
enrolled s cmd = do
  document ← new_document s.upper cmd.document
  bank ← new_bank_account cmd.bank_code cmd.branch cmd.account_number cmd.account_kind
  plan ←
      new_fee_plan cmd.debit_bps cmd.credit_bps cmd.credit_installment_bps
        cmd.anticipation_bps_month
  m ← new_merchant s.merchant_id document cmd.legal_name cmd.mcc bank plan s.now
  with_webhook s cmd.webhook_url m
