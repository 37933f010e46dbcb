-- ===== src/Infrastructure.antt =====
-- internal/infrastructure: the registry of receivables and the bank that stand in for the outside
-- services.
pub mod Registry
pub mod Bank
