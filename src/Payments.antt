-- ===== src/Payments.antt =====
-- The payments feature: apps/web/src/features/payments.
pub mod Model
pub mod Audit
pub mod Store
pub mod Repository
pub mod Calculations
pub mod Currencies
pub mod Service
pub mod Ledger
pub mod Safety
pub mod Recording
pub mod Confirming
pub mod Forbidden
mod Tests
