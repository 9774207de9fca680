-- ===== src/Payments/Repository.antt =====
-- apps/web/src/features/payments/repository.ts, by table.
pub mod Bookings
pub mod Plans
pub mod Payments
pub mod Refunds
pub mod Allocations
pub mod Writes
