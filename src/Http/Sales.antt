-- ===== src/Http/Sales.antt =====
-- internal/handler/http/transactions.go, less the card tokens, which another service makes, and the
-- metrics.
use adquirente.Base.{String, some, none}
use adquirente.Base.Int.{ℤ}
use adquirente.Shared.Error.{Error}
use adquirente.Shared.Time.{Time}
use adquirente.Transaction.{Transaction}
use adquirente.Store.{Action}
use adquirente.Application.Lifecycle.{capture_sale, cancel_sale, get_sale}
use adquirente.Application.Authorization as Authorization
use adquirente.Application.Authorization.Checks.{Setting, AuthorizeCommand}
use adquirente.Http.Answers.{Printing, to_transaction_response}
use adquirente.Http.Replies.{Reply, Bound, with_request, answer, transaction_body}
use adquirente.Http.Guards.{Guarded, require_merchant}

pub record AuthorizeRequest : Type 0 where
  pub amount : ℤ
  pub product : String
  pub installments : ℤ
  pub card_token : String

abbrev pub command_of : String → AuthorizeRequest → AuthorizeCommand
command_of merchant_id r = record {
  merchant_id = merchant_id;
  amount = r.amount;
  product = r.product;
  installments = r.installments;
  card_token = r.card_token;
}

module _ (p : Printing) (text : Error → String) where
  -- A denied sale is created as well.
  abbrev pub created_sale : Transaction → Reply
  created_sale t = record {
    status = 201;
    location = some t.id;
    body = transaction_body (to_transaction_response p t);
  }

  abbrev pub shown_sale : Transaction → Reply
  shown_sale t = record {
    status = 200;
    location = none;
    body = transaction_body (to_transaction_response p t);
  }

  -- `TransactionHandler.Authorize`
  unfoldable pub post_sale : Setting → Bound AuthorizeRequest → Guarded
  post_sale s req = require_merchant λ merchant_id.
      with_request req
        λ r w. answer text created_sale (Authorization.execute s (command_of merchant_id r) w)

  -- `TransactionHandler.change`, and what `Get` shares with it.
  unfoldable pub reply_with : (String → String → Action Transaction) → String → Guarded
  reply_with fn id = require_merchant λ merchant_id w. answer text shown_sale (fn merchant_id id w)

  abbrev pub get_transaction : String → Guarded
  get_transaction id = reply_with get_sale id

  -- The event identifier and the time are drawn in the use case.
  abbrev pub post_capture : String → Time → String → Guarded
  post_capture event_id now id = reply_with (capture_sale event_id now) id

  abbrev pub post_cancel : String → Time → String → Guarded
  post_cancel event_id now id = reply_with (cancel_sale event_id now) id
