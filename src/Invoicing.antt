-- ===== src/Invoicing.antt =====
-- What an invoice promises to its buyer (core/invoicing/).
pub mod Integrity
pub mod Issuance
pub mod Quotas
pub mod Rates
mod Tests
