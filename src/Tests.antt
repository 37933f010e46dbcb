-- ===== src/Tests.antt =====
-- The theorems at concrete values.
pub mod UseCases
pub mod Data
pub mod Amounts
pub mod Days
pub mod Sales
pub mod Payments
pub mod Books
pub mod PayDay
pub mod Requests
pub mod Shops
pub mod Offers
pub mod History
pub mod Messages
pub mod Webhooks
pub mod Api
