-- ===== src/Assignments.antt =====
-- Assignments of staff to leads, clients and bookings: apps/web/src/features/assignments.
pub mod Model
pub mod Audit
pub mod Repository
pub mod Authorization
pub mod Writes
pub mod Slots
pub mod Rows
pub mod Answers
pub mod Replacing
pub mod Listing
pub mod Service
pub mod Finance
mod Tests
