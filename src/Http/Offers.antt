-- ===== src/Http/Offers.antt =====
-- internal/handler/http/anticipations.go: the sales of receivables, and the chargebacks that the
-- back office opens.
use adquirente.Base.{String, some, none, List}
use adquirente.Shared.Error.{Error}
use adquirente.Shared.Money.{Money}
use adquirente.Shared.Time.{Time}
use adquirente.Anticipation.{Anticipation}
use adquirente.Application.Anticipate.{Anticipator, offer, request, get_anticipation}
use adquirente.Application.Disputes as Disputes
use adquirente.Application.Disputes.{Draws}
use adquirente.Http.Answers.{Printing, to_anticipation_response, to_chargeback_response}
use adquirente.Http.Replies.{Reply, Bound, with_request, answer, anticipation_body, chargeback_body}
use adquirente.Http.Guards.{Guarded, require_merchant}

pub record OpenChargebackRequest : Type 0 where
  pub merchant_id : String
  pub transaction_id : String
  pub reason_code : String
  pub amount : Money

module _ (p : Printing) (text : Error → String) where
  abbrev pub shown_anticipation : Anticipation → Reply
  shown_anticipation a = record {
    status = 200;
    location = none;
    body = anticipation_body (to_anticipation_response p a);
  }

  abbrev pub created_anticipation : Anticipation → Reply
  created_anticipation a = record {
    status = 201;
    location = some a.id;
    body = anticipation_body (to_anticipation_response p a);
  }

  -- `AnticipationHandler.Simulate`; a request is its list of identifiers.
  unfoldable pub post_simulate : Anticipator → Bound (List String) → Guarded
  post_simulate s req = require_merchant λ merchant_id.
      with_request req λ ids w. answer text shown_anticipation (offer s merchant_id ids w)

  -- `AnticipationHandler.Create`
  unfoldable pub post_anticipation : Anticipator → Bound (List String) → Guarded
  post_anticipation s req = require_merchant λ merchant_id.
      with_request req λ ids w. answer text created_anticipation (request s merchant_id ids w)

  -- `AnticipationHandler.Get`
  unfoldable pub get_offer : String → Guarded
  get_offer id =
      require_merchant
        λ merchant_id w. answer text shown_anticipation (get_anticipation merchant_id id w)

  -- `ChargebackHandler.Open`
  unfoldable pub post_chargeback : Draws → Time → Bound OpenChargebackRequest → Guarded
  post_chargeback d now req principal = with_request req λ r w.
      answer text
        (λ c. record {
          status = 201;
          location = none;
          body = chargeback_body (to_chargeback_response c);
        })
        (Disputes.execute d r.merchant_id r.transaction_id r.reason_code r.amount now w)
