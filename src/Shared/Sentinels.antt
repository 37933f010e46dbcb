-- ===== src/Shared/Sentinels.antt =====
-- `errors.Is` on the sentinel errors of internal/domain and internal/application.
use adquirente.Base.{ℕ, Bool, ◌==◌}
use adquirente.Shared.Error.{
  Error, permanent, external, not_found, invalid_transition, concurrent_update, already_done,
  invalid_amount, invalid_product, invalid_document, invalid_bank_account, invalid_legal_name,
  invalid_mcc, invalid_fee_plan, invalid_webhook, invalid_pan, invalid_token, debit_installments,
  max_installments, no_receivables, merchant_inactive, installments_not_allowed, limit_exceeded,
  not_anticipable, wrong_merchant, receivable_liened, amount_above_transaction, transaction_status,
  issuer_unavailable, not_captured, nothing_to_settle, wrong_day, wrong_status, not_owner,
  defense_closed, already_running, index_out_of_range,
}

-- The sentinels, numbered. An error that is none of them, or that comes from outside, is 0.
abbrev pub sentinel : Error → ℕ
sentinel not_found = 1
sentinel invalid_transition = 2
sentinel concurrent_update = 3
sentinel already_done = 4
sentinel invalid_amount = 5
sentinel invalid_product = 6
sentinel invalid_document = 7
sentinel invalid_bank_account = 8
sentinel invalid_legal_name = 9
sentinel invalid_mcc = 10
sentinel invalid_fee_plan = 11
sentinel invalid_webhook = 12
sentinel invalid_pan = 13
sentinel invalid_token = 14
sentinel debit_installments = 15
sentinel max_installments = 16
sentinel no_receivables = 17
sentinel merchant_inactive = 18
sentinel installments_not_allowed = 19
sentinel limit_exceeded = 20
sentinel not_anticipable = 21
sentinel wrong_merchant = 22
sentinel receivable_liened = 23
sentinel amount_above_transaction = 24
sentinel transaction_status = 25
sentinel issuer_unavailable = 26
sentinel not_captured = 27
sentinel nothing_to_settle = 28
sentinel wrong_day = 29
sentinel wrong_status = 30
sentinel not_owner = 31
sentinel defense_closed = 32
sentinel already_running = 33
sentinel index_out_of_range = 34
sentinel (external text) = 0
sentinel (permanent e) = sentinel e

-- `errors.Is(e, target)` for a sentinel: a permanent error unwraps to the error in it.
abbrev pub is_error : Error → Error → Bool
is_error e target = sentinel e == sentinel target
