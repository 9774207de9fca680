-- ===== src/Payments/Ledger.antt =====
-- The ledger of payments, refunds, allocations and installments: its invariant, and that every
-- operation of the payments service keeps it.
pub mod Sums
pub mod Rows
pub mod Invariant
pub mod Coverage
pub mod Record
pub mod SetStatus
pub mod Transitions
pub mod StatusLaws
pub mod Allocate
pub mod Unallocate
pub mod Installments
pub mod Link
pub mod Refund
