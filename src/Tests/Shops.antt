-- ===== src/Tests/Shops.antt =====
-- Examples for documents and for the use cases on merchants.
use adquirente.Base.{◌≡◌, refl, none, []}
use adquirente.Base.Int.{pos}
use adquirente.Base.Texts.{Text, codes}
use adquirente.Shared.Error.{ok}
use adquirente.Merchant.{block}
use adquirente.Merchant.Document.{check_digit, judged, new_document}
use adquirente.Merchant.Document.Canonical.{KeepsCapitals, new_document_again}
use adquirente.Store.Laws.{AllOrNothing}
use adquirente.Application.Merchants.{change}
use adquirente.Application.Merchants.Enrollment.{Setting, OnboardCommand}
use adquirente.Application.Merchants.Effect.{Reviewed, change-Reviewed}
use adquirente.Tests.Data.{monday}
use adquirente.Tests.UseCases.{start}

-- A text without letters in lower case.
abbrev upper : Text → Text
upper t = t

upper-KeepsCapitals : KeepsCapitals upper
upper-KeepsCapitals t h = refl

document_read : new_document upper (codes "11.222.333/0001-81") ≡ ok (codes "11222333000181")
unfolding new_document judged check_digit
document_read = refl

new_document_again_example :
    new_document upper (codes "11222333000181") ≡ ok (codes "11222333000181")
new_document_again_example =
    new_document_again upper (codes "11.222.333/0001-81") (codes "11222333000181")
      upper-KeepsCapitals document_read

change-Reviewed_example :
    AllOrNothing
      (Reviewed monday "m_1" (block monday))
      start
      (change monday "m_1" (block monday) start)
change-Reviewed_example = change-Reviewed monday "m_1" (block monday) start

abbrev setting : Setting
setting = record { upper = upper; parse = λ url. none; merchant_id = "m_2"; now = monday }

abbrev registration : OnboardCommand
registration = record {
  document = codes "11.444.777/0001-61";
  legal_name = codes "PADARIA";
  mcc = codes "5462";
  bank_code = codes "001";
  branch = codes "1234";
  account_number = codes "99";
  account_kind = "CHECKING";
  debit_bps = pos 150;
  credit_bps = pos 300;
  credit_installment_bps = [];
  anticipation_bps_month = pos 200;
  webhook_url = codes "";
}
