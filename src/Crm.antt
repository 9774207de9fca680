-- ===== src/Crm.antt =====
-- The tables that leads and assignments share, and the reads and writes of both.
pub mod Model
pub mod Store
pub mod Calls
pub mod Writes
