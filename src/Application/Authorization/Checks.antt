-- ===== src/Application/Authorization/Checks.antt =====
-- The first half of `Execute` of internal/application/transaction/authorize.go: what is checked
-- before the issuer is asked.
use mathlib.Core.Path.{subst}
use adquirente.Store.Tables.{ok_injective}
use adquirente.Base.{ℕ, ◌≡◌, String, Option, none, some, List, [], ◌∷◌, if◌then◌else◌}
use adquirente.Base.Int.{ℤ, ltb_ℤ}
use adquirente.Shared.Error.{Error, Result, ok, err, ◌>>=◌, ◌>>◌, result_ok, limit_exceeded}
use adquirente.Shared.Money.{Money}
use adquirente.Shared.Product.{Product, parse_product}
use adquirente.Shared.Time.{Time}
use adquirente.Merchant.{Merchant}
use adquirente.Transaction.{Transaction, new_transaction}
use adquirente.Transaction.Card.{CardInfo, card_info_from_pan}
use adquirente.Transaction.Requests.{AuthorizationRequest, AuthorizationResponse, CardData}

pub record AuthorizeCommand : Type 0 where
  pub merchant_id : String
  pub amount : Money
  pub product : String
  pub installments : ℤ
  pub card_token : String

-- A rule answers with an error, or with `none` to let the sale pass.
abbrev pub Rule : Type 0
Rule = Merchant → Transaction → Option Error

unfoldable pub max_amount_rule : Money → Rule
max_amount_rule limit m tx = if ltb_ℤ limit tx.amount then some limit_exceeded else none

unfoldable pub check_rules : List Rule → Merchant → Transaction → Result (Unit {0})
check_rules [] m tx = ok tt
check_rules (rule ∷ rules) m tx = elim (rule m tx) [
  | some e ↦ err e
  | none ↦ check_rules rules m tx
]

-- What `issuer.Authorize` answers: a response, the end of the time that it was given, or another
-- error.
pub data IssuerAnswer : Type 0 where
  responded : AuthorizationResponse → IssuerAnswer
  deadline_exceeded : IssuerAnswer
  failed : IssuerAnswer

-- The services, the clock's readings and the identifiers that one run draws.
pub record Setting : Type 0 where
  pub vault : String → Result CardData
  pub issuer : AuthorizationRequest → IssuerAnswer
  pub rules : List Rule
  pub nsu_text : ℕ → String
  pub now : Time
  pub later : Time
  pub transaction_id : String
  pub event_id : String

-- The sale before the issuer is asked: the card and the pending transaction.
unfoldable pub prepared : Setting → AuthorizeCommand → Merchant → Result (CardData × Transaction)
prepared s cmd m = do
  product ← parse_product cmd.product
  card ← s.vault cmd.card_token
  info ← card_info_from_pan cmd.card_token card.pan
  tx ← new_transaction s.transaction_id m cmd.amount product cmd.installments info s.now
  check_rules s.rules m tx
  ok (card, tx)

-- What the code has when it asks the issuer.
abbrev pub IsPrepared : Setting → AuthorizeCommand → Merchant → CardData → Transaction → Type 0
IsPrepared s cmd m card tx =
    (product : Product) × (info : CardInfo) × (parse_product cmd.product ≡ ok product)
    × (s.vault cmd.card_token ≡ ok card)
    × (card_info_from_pan cmd.card_token card.pan ≡ ok info)
    × (new_transaction s.transaction_id m cmd.amount product cmd.installments info s.now ≡ ok tx)
    × (check_rules s.rules m tx ≡ ok tt)

pub prepared-IsPrepared :
    (s : Setting) (cmd : AuthorizeCommand) (m : Merchant) {card : CardData} {tx : Transaction}
    → prepared s cmd m ≡ ok (card, tx)
    → IsPrepared s cmd m card tx
unfolding prepared
prepared-IsPrepared s cmd m h = result_ok (parse_product cmd.product) _ h λ product parsed h1.
    result_ok (s.vault cmd.card_token) _ h1 λ card opened h2.
      result_ok (card_info_from_pan cmd.card_token card.pan) _ h2 λ info read h3.
        result_ok
          (new_transaction s.transaction_id m cmd.amount product cmd.installments info s.now) _ h3
          λ tx made h4. result_ok (check_rules s.rules m tx) _ h4 λ u passed last.
            subst (λ p. IsPrepared s cmd m p.0 p.1) (ok_injective last)
              (product, info, parsed, opened, read, made, passed)
