-- ===== src/Http/Shops.antt =====
-- internal/handler/http/merchants.go
use adquirente.Base.{String, Bool, Option, some, none, List}
use adquirente.Base.Int.{ℤ}
use adquirente.Base.Texts.{Text}
use adquirente.Shared.Error.{Error}
use adquirente.Shared.Time.{Time}
use adquirente.Merchant.{Merchant, Url}
use adquirente.Store.Shops.{find_merchant}
use adquirente.Application.Merchants.{onboard, approve_merchant, block_merchant, update_settings}
use adquirente.Application.Merchants.Enrollment.{Setting, OnboardCommand}
use adquirente.Http.Answers.{to_merchant_response}
use adquirente.Http.Replies.{Reply, Bound, with_request, answer, merchant_body}
use adquirente.Http.Guards.{Guarded, owned_merchant_id}

pub record BankRequest : Type 0 where
  pub code : Text
  pub branch : Text
  pub number : Text
  pub kind : String

pub record FeePlanRequest : Type 0 where
  pub debit_bps : ℤ
  pub credit_bps : ℤ
  pub credit_installment_bps : List (ℤ × ℤ)
  pub anticipation_bps_month : ℤ

pub record CreateMerchantRequest : Type 0 where
  pub document : Text
  pub legal_name : Text
  pub mcc : Text
  pub bank : BankRequest
  pub fee_plan : FeePlanRequest
  pub webhook_url : Text

pub record UpdateMerchantSettingsRequest : Type 0 where
  pub webhook_url : Option Text
  pub auto_anticipation : Option Bool

abbrev pub onboard_command : CreateMerchantRequest → OnboardCommand
onboard_command r = record {
  document = r.document;
  legal_name = r.legal_name;
  mcc = r.mcc;
  bank_code = r.bank.code;
  branch = r.bank.branch;
  account_number = r.bank.number;
  account_kind = r.bank.kind;
  debit_bps = r.fee_plan.debit_bps;
  credit_bps = r.fee_plan.credit_bps;
  credit_installment_bps = r.fee_plan.credit_installment_bps;
  anticipation_bps_month = r.fee_plan.anticipation_bps_month;
  webhook_url = r.webhook_url;
}

abbrev pub created_merchant : Merchant → Reply
created_merchant m = record {
  status = 201;
  location = some m.id;
  body = merchant_body (to_merchant_response m);
}

abbrev pub shown_merchant : Merchant → Reply
shown_merchant m = record {
  status = 200;
  location = none;
  body = merchant_body (to_merchant_response m);
}

module _ (text : Error → String) where
  -- `MerchantHandler.Create`
  unfoldable pub post_merchant : Setting → Bound CreateMerchantRequest → Guarded
  post_merchant s req p =
      with_request req λ r w. answer text created_merchant (onboard s (onboard_command r) w)

  -- `MerchantHandler.Get`
  unfoldable pub get_merchant : String → Guarded
  get_merchant url_id =
      owned_merchant_id url_id λ id w. answer text shown_merchant (find_merchant id w)

  -- `MerchantHandler.Approve` and `MerchantHandler.Block`
  unfoldable pub post_approve : Time → Time → String → Guarded
  post_approve stamp now id p w = answer text shown_merchant (approve_merchant stamp now id w)

  unfoldable pub post_block : Time → Time → String → Guarded
  post_block stamp now id p w = answer text shown_merchant (block_merchant stamp now id w)

  -- `MerchantHandler.UpdateSettings`
  unfoldable pub patch_settings :
      (Text → Option Url) → Time → Time → String → Bound UpdateMerchantSettingsRequest → Guarded
  patch_settings parse stamp now url_id req = owned_merchant_id url_id λ id. with_request req λ r w.
      answer text shown_merchant
        (update_settings parse r.webhook_url r.auto_anticipation stamp now id w)
