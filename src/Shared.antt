-- ===== src/Shared.antt =====
-- The shared kernel, internal/domain/shared: errors, money, products, time, the business calendar
-- and events.
pub mod Error
pub mod Money
pub mod Product
pub mod Time
pub mod Calendar
pub mod Event
pub mod Sentinels
