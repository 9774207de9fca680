-- ===== src/Leads/Service.antt =====
-- apps/web/src/features/leads/service.ts, one module for each group of its functions.
pub mod Actors
pub mod Duplicates
pub mod Create
pub mod Update
pub mod Status
pub mod Convert
pub mod Reading
