-- ===== src/Leads.antt =====
-- Leads: apps/web/src/features/leads.
pub mod Transitions
pub mod Audit
pub mod Repository
pub mod Reads
pub mod Matches
pub mod Conversion
pub mod Kept
pub mod Lifecycle
pub mod Service
pub mod Moves
pub mod Scope
pub mod Replay
mod Tests
