-- ===== src/Http/Replies.antt =====
-- internal/handler/http/problem.go: what a handler answers. `Error()` of an error is an argument.
use adquirente.Base.{ℕ, String, Option, none, List, [], ◌∷◌, if◌then◌else◌}
use adquirente.Shared.Error.{
  Error, Result, ok, err, not_found, invalid_transition, concurrent_update, already_done,
  invalid_amount, invalid_product, invalid_document, invalid_bank_account, invalid_legal_name,
  invalid_mcc, invalid_fee_plan, invalid_webhook, invalid_pan, invalid_token, debit_installments,
  max_installments, no_receivables, merchant_inactive, installments_not_allowed, limit_exceeded,
  not_anticipable, not_owner, receivable_liened, amount_above_transaction, transaction_status,
  issuer_unavailable,
}
use adquirente.Shared.Sentinels.{is_error}
use adquirente.Store.{World}
use adquirente.Http.Answers.{
  MerchantResponse, TransactionResponse, AnticipationResponse, ChargebackResponse,
  ReceivableResponse,
}

-- `Problem`; its type, title and instance follow from the others and from the request.
pub record Problem : Type 0 where
  pub status : ℕ
  pub code : String
  pub detail : String

pub data Body : Type 0 where
  problem_body : Problem → Body
  merchant_body : MerchantResponse → Body
  transaction_body : TransactionResponse → Body
  receivables_body : List ReceivableResponse → Body
  anticipation_body : AnticipationResponse → Body
  chargeback_body : ChargebackResponse → Body

-- `location` is what follows the collection in the header `Location`.
pub record Reply : Type 0 where
  pub status : ℕ
  pub location : Option String
  pub body : Body

abbrev pub problem : ℕ → String → String → Reply
problem status code detail = record {
  status = status;
  location = none;
  body = problem_body (record { status = status; code = code; detail = detail });
}

-- `errorMap`, less its last entry, for `context.DeadlineExceeded`: the model's errors do not tell it
-- from others that come from outside.
abbrev pub error_map : List (Error × ℕ × String)
error_map =
    (not_found, 404, "NOT_FOUND")
    ∷ (invalid_transition, 409, "INVALID_TRANSITION")
    ∷ (concurrent_update, 409, "CONCURRENT_UPDATE")
    ∷ (already_done, 409, "ALREADY_DONE")
    ∷ (invalid_amount, 400, "INVALID_AMOUNT")
    ∷ (invalid_product, 400, "INVALID_PRODUCT")
    ∷ (invalid_document, 400, "INVALID_DOCUMENT")
    ∷ (invalid_bank_account, 400, "INVALID_BANK_ACCOUNT")
    ∷ (invalid_legal_name, 400, "INVALID_LEGAL_NAME")
    ∷ (invalid_mcc, 400, "INVALID_MCC")
    ∷ (invalid_fee_plan, 400, "INVALID_FEE_PLAN")
    ∷ (invalid_webhook, 400, "INVALID_WEBHOOK_URL")
    ∷ (invalid_pan, 400, "INVALID_CARD")
    ∷ (invalid_token, 400, "INVALID_CARD_TOKEN")
    ∷ (debit_installments, 400, "DEBIT_CANNOT_INSTALL")
    ∷ (max_installments, 400, "INVALID_INSTALLMENTS")
    ∷ (no_receivables, 400, "NO_RECEIVABLES")
    ∷ (merchant_inactive, 422, "MERCHANT_INACTIVE")
    ∷ (installments_not_allowed, 422, "INSTALLMENTS_NOT_ALLOWED")
    ∷ (limit_exceeded, 422, "LIMIT_EXCEEDED")
    ∷ (not_anticipable, 422, "RECEIVABLE_NOT_ANTICIPABLE")
    ∷ (not_owner, 403, "FORBIDDEN")
    ∷ (receivable_liened, 422, "RECEIVABLE_LIENED")
    ∷ (amount_above_transaction, 422, "INVALID_CHARGEBACK_AMOUNT")
    ∷ (transaction_status, 422, "TRANSACTION_NOT_DISPUTABLE")
    ∷ (issuer_unavailable, 503, "ISSUER_UNAVAILABLE")
    ∷ []

-- The loop of `respondError`, and what follows it.
unfoldable pub respond_by : (Error → String) → Error → List (Error × ℕ × String) → Reply
respond_by text e [] = problem 500 "INTERNAL_ERROR" "erro interno do servidor"
respond_by text e ((target, status, code) ∷ entries) =
    if is_error e target then problem status code (text e) else respond_by text e entries

abbrev pub respond_error : (Error → String) → Error → Reply
respond_error text e = respond_by text e error_map

-- `if err != nil { respondError(c, err); return }`, and the answer that follows.
abbrev pub answer : {A : Type 0} → (Error → String) → (A → Reply) → Result A × World → Reply × World
answer text reply (ok a, w) = (reply a, w)
answer text reply (err e, w) = (respond_error text e, w)

-- What `ShouldBindJSON` makes of the body: the text of its error, or a request that has the format of
-- the `binding` tags.
pub data Bound (R : Type 0) : Type 0 where
  malformed : String → Bound R
  bound : R → Bound R

abbrev pub with_request :
    {R : Type 0} → Bound R → (R → World → Reply × World) → World → Reply × World
with_request (malformed why) next w = (problem 400 "INVALID_REQUEST" why, w)
with_request (bound r) next w = next r w
