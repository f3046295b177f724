-- ===== src/Settler.antt =====
-- The settler (settler/): its decisions on amounts, its tables, its transactions and its loop.
pub mod Decimal
pub mod Amounts
pub mod Policy
pub mod Confirmations
pub mod Ledger
pub mod Service
pub mod Loop
mod Tests
