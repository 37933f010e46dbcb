-- ===== src/Transaction/Requests.antt =====
-- internal/domain/transaction/ports.go: what the program asks of the card vault and of the issuer.
use adquirente.Base.{String, Bool}
use adquirente.Base.Int.{ℤ}
use adquirente.Base.Texts.{Text}
use adquirente.Shared.Money.{Money}
use adquirente.Shared.Product.{Product}

pub record AuthorizationRequest : Type 0 where
  pub transaction_id : String
  pub pan : Text
  pub expiry : Text
  pub amount : Money
  pub product : Product
  pub installments : ℤ
  pub merchant_mcc : Text

pub record AuthorizationResponse : Type 0 where
  pub approved : Bool
  pub authorization_code : String
  pub response_code : String

pub record CardData : Type 0 where
  pub pan : Text
  pub expiry : Text
