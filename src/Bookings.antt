-- ===== src/Bookings.antt =====
-- The bookings feature: apps/web/src/features/bookings.
pub mod Transitions
pub mod Model
pub mod Repository
pub mod References
pub mod Service
pub mod Life
pub mod Errors
pub mod Replays
pub mod Moves
pub mod Pages
mod Tests
