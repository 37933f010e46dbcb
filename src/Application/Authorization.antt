-- ===== src/Application/Authorization.antt =====
-- `Execute` of internal/application/transaction/authorize.go, from the merchant to the outbox.
pub mod Checks
pub mod Verdict
pub mod Saga
use adquirente.Base.{
  ℕ, Bool, true, false, String, Option, none, some, List, [], ◌∷◌, ◌++◌, if◌then◌else◌,
}
use adquirente.Base.Int.{ℤ, ltb_ℤ}
use adquirente.Base.Texts.{Text}
use adquirente.Shared.Error.{Error, Result, ok, err, Outcome, issuer_unavailable, limit_exceeded}
use adquirente.Shared.Money.{Money}
use adquirente.Shared.Product.{Product, parse_product}
use adquirente.Shared.Time.{Time}
use adquirente.Merchant.{Merchant}
use adquirente.Transaction.{Transaction, new_transaction, authorize, deny, pull_events}
use adquirente.Transaction.Card.{CardInfo, card_info_from_pan}
use adquirente.Transaction.Requests.{AuthorizationRequest, AuthorizationResponse, CardData}
use adquirente.Store.{
  World, Action, Call, authorization_asked, reversal_asked, pure, raise, lift, applied, call, ◌>>=◌,
  ◌>>◌, unit_of_work,
}
use adquirente.Store.Shops.{find_merchant}
use adquirente.Store.Sales.{create, next_nsu}
use adquirente.Store.Books.{append_events}
use adquirente.Application.Lifecycle.{pulled}
use adquirente.Application.Authorization.Checks.{
  Setting, AuthorizeCommand, IssuerAnswer, responded, deadline_exceeded, failed, prepared,
}

abbrev pub request_of : Merchant → CardData → Transaction → AuthorizationRequest
request_of m card tx = record {
  transaction_id = tx.id;
  pan = card.pan;
  expiry = card.expiry;
  amount = tx.amount;
  product = tx.product;
  installments = tx.installments;
  merchant_mcc = m.mcc;
}

-- The response that a timeout is turned into.
abbrev pub no_answer : AuthorizationResponse
no_answer = record { approved = false; authorization_code = ""; response_code = "91" }

-- The switch on the issuer's error: a timeout is reversed and denied.
abbrev pub settled_answer : String → IssuerAnswer → Action AuthorizationResponse
settled_answer id (responded r) = pure r
settled_answer id deadline_exceeded = call (reversal_asked id) >>= λ _. pure no_answer
settled_answer id failed = raise issuer_unavailable

-- `if resp.Approved`: the number is drawn only for an approval.
abbrev pub decided_by : Bool → Setting → AuthorizationResponse → Transaction → Action Transaction
decided_by true s r tx = next_nsu s.nsu_text >>= λ nsu.
    applied (authorize s.event_id r.authorization_code nsu s.later tx)
decided_by false s r tx = applied (deny s.event_id r.response_code s.later tx)

abbrev pub decided : Setting → AuthorizationResponse → Transaction → Action Transaction
decided s r tx = decided_by r.approved s r tx

-- The function that `Execute` gives to the unit of work.
unfoldable pub conclude : Setting → AuthorizationResponse → Transaction → Action Transaction
conclude s r tx = decided s r tx >>= λ t.
    create t >>= λ _. append_events (pulled t) >>= λ _. pure (pull_events t).1

-- From the question to the issuer on.
unfoldable pub asked : Setting → Merchant → CardData × Transaction → Action Transaction
asked s m (card, tx) =
    let req = request_of m card tx in
    call (authorization_asked req) >>= λ _.
    settled_answer tx.id (s.issuer req) >>= λ r. unit_of_work (conclude s r tx)

unfoldable pub execute : Setting → AuthorizeCommand → Action Transaction
execute s cmd = find_merchant cmd.merchant_id >>= λ m. lift (prepared s cmd m) >>= asked s m
