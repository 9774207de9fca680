-- ===== src/Payments/Service.antt =====
-- apps/web/src/features/payments/service.ts, by operation. Each operation is a transaction body,
-- `..._tx`, and the call around it, with its role check, its retries and its catch block.
pub mod Actors
pub mod Financials
pub mod Plans
pub mod Replay
pub mod Payments
pub mod Refund
pub mod Receipt
pub mod Allocations
pub mod Reads
pub mod Summary
