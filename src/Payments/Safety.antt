-- ===== src/Payments/Safety.antt =====
-- The operations of the payments service keep the ledger.
pub mod Status
pub mod Frame
pub mod Calls
pub mod Interleaving
pub mod Refund
pub mod Allocation
pub mod Record
pub mod Bounds
pub mod Roles
