-- ===== src/Http/Names.antt =====
-- The strings of the status types of internal/domain, as the responses print them.
use adquirente.Base.{String}
use adquirente.Merchant as Shop
use adquirente.Transaction as Sale
use adquirente.Receivable as Due
use adquirente.Anticipation as Offer
use adquirente.Chargeback as Dispute

abbrev pub merchant_status : Shop.MerchantStatus → String
merchant_status Shop.under_review = "UNDER_REVIEW"
merchant_status Shop.active = "ACTIVE"
merchant_status Shop.blocked = "BLOCKED"

abbrev pub sale_status : Sale.Status → String
sale_status Sale.pending = "PENDING"
sale_status Sale.authorized = "AUTHORIZED"
sale_status Sale.denied = "DENIED"
sale_status Sale.captured = "CAPTURED"
sale_status Sale.canceled = "CANCELED"
sale_status Sale.settled = "SETTLED"
sale_status Sale.chargebacked = "CHARGEBACKED"

abbrev pub receivable_status : Due.Status → String
receivable_status Due.scheduled = "SCHEDULED"
receivable_status Due.anticipated = "ANTICIPATED"
receivable_status Due.settled = "SETTLED"
receivable_status Due.canceled = "CANCELED"
receivable_status Due.chargebacked = "CHARGEBACKED"

abbrev pub anticipation_status : Offer.AnticipationStatus → String
anticipation_status Offer.simulated = "SIMULATED"
anticipation_status Offer.confirmed = "CONFIRMED"

abbrev pub chargeback_status : Dispute.ChargebackStatus → String
chargeback_status Dispute.opened = "OPENED"
chargeback_status Dispute.defended = "DEFENDED"
chargeback_status Dispute.accepted = "ACCEPTED"
chargeback_status Dispute.reversed = "REVERSED"
