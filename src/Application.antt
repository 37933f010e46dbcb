-- ===== src/Application.antt =====
-- internal/application: the use cases, which run the domain on the tables.
pub mod Lifecycle
pub mod Authorization
pub mod Disputes
pub mod Scheduling
pub mod SettleDue
pub mod Idempotency
pub mod Merchants
pub mod Anticipate
pub mod History
pub mod Notification
