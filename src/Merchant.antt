-- ===== src/Merchant.antt =====
-- internal/domain/merchant/merchant.go. A method that changes its receiver returns the new value
-- with its error. The identifier that `NewID("m")` draws is an argument of `new_merchant`.
pub mod Fees
pub mod Accounts
pub mod Status
pub mod Document
use adquirente.Base.{
  ℕ, Bool, true, false, not, ◌&&◌, ◌||◌, String, Option, none, some, length, ◌==◌, if◌then◌else◌,
}
use adquirente.Base.Int.{ℤ, pos}
use adquirente.Base.Int64.{add64}
use adquirente.Base.Texts.{
  Text, codes, is_empty, text_eq, has_prefix, has_suffix, to_lower, trim_space,
}
use adquirente.Shared.Error.{
  Result, ok, err, Outcome, invalid_legal_name, invalid_mcc, invalid_bank_account,
  invalid_transition, invalid_webhook,
}
use adquirente.Shared.Time.{Time}
use adquirente.Merchant.Fees.{FeePlan}
use adquirente.Merchant.Accounts.{BankAccount, is_zero_account}

pub data MerchantStatus : Type 0 where
  under_review active blocked : MerchantStatus

abbrev pub status_code : MerchantStatus → ℕ
status_code under_review = 0
status_code active = 1
status_code blocked = 2

abbrev pub status_eq : MerchantStatus → MerchantStatus → Bool
status_eq a b = status_code a == status_code b

-- `legal_name` is a list of code points.
pub record Merchant : Type 0 where
  pub id : String
  pub document : Text
  pub legal_name : Text
  pub mcc : Text
  pub status : MerchantStatus
  pub bank_account : BankAccount
  pub fee_plan : FeePlan
  pub webhook_url : Text
  pub auto_anticipation : Bool
  pub version : ℤ
  pub created_at : Time
  pub updated_at : Time

unfoldable pub new_merchant :
    String → Text → Text → Text → BankAccount → FeePlan → Time → Result Merchant
new_merchant id document raw_name mcc bank plan now =
    let legal_name = trim_space raw_name in
    if is_empty legal_name
    then err invalid_legal_name
    else if not (length mcc == 4)
    then err invalid_mcc
    else if is_zero_account bank
    then err invalid_bank_account
    else ok (record {
      id = id;
      document = document;
      legal_name = legal_name;
      mcc = mcc;
      status = under_review;
      bank_account = bank;
      fee_plan = plan;
      webhook_url = codes "";
      auto_anticipation = false;
      version = pos 1;
      created_at = now;
      updated_at = now;
    })

abbrev pub touch : Time → Merchant → Merchant
touch now m = record m { updated_at = now; version = add64 m.version (pos 1) }

unfoldable pub approve : Time → Merchant → Outcome Merchant
approve now m =
    if not (status_eq m.status under_review)
    then (m, some invalid_transition)
    else (touch now (record m { status = active }), none)

unfoldable pub block : Time → Merchant → Outcome Merchant
block now m =
    if not (status_eq m.status active)
    then (m, some invalid_transition)
    else (touch now (record m { status = blocked }), none)

unfoldable pub set_fee_plan : FeePlan → Time → Merchant → Merchant
set_fee_plan plan now m = touch now (record m { fee_plan = plan })

-- What the code reads of a parsed URL: `u.Scheme`, `u.Host` and `u.Hostname()`.
pub record Url : Type 0 where
  pub scheme : Text
  pub host : Text
  pub hostname : Text

-- The host names that the code takes for private ones.
unfoldable pub is_private_host : Text → Bool
is_private_host host =
    text_eq host (codes "localhost")
    || has_suffix host (codes ".local")
    || has_suffix host (codes ".internal")
    || has_prefix host (codes "10.")
    || has_prefix host (codes "192.168.")
    || has_prefix host (codes "127.")
    || has_prefix host (codes "169.254.")
    || has_prefix host (codes "172.")

-- The test of `SetWebhook` on the outcome of `url.Parse`, which is `none` for an error.
unfoldable pub is_webhook : Option Url → Bool
is_webhook none = false
is_webhook (some u) =
    text_eq u.scheme (codes "https")
    && not (is_empty u.host)
    && not (is_private_host (to_lower u.hostname))

-- `parse` is `url.Parse` of `net/url`.
unfoldable pub set_webhook : (Text → Option Url) → Text → Time → Merchant → Outcome Merchant
set_webhook parse raw now m =
    if is_webhook (parse raw)
    then (touch now (record m { webhook_url = raw }), none)
    else (m, some invalid_webhook)

unfoldable pub enable_auto_anticipation : Bool → Time → Merchant → Merchant
enable_auto_anticipation on now m = touch now (record m { auto_anticipation = on })

abbrev pub is_active : Merchant → Bool
is_active m = status_eq m.status active
