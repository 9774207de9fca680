-- ===== src/Bookings/Service.antt =====
-- apps/web/src/features/bookings/service.ts, the staff's side, one module for each group of its
-- functions.
pub mod Actors
pub mod Create
pub mod Reading
pub mod Status
