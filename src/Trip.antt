-- ===== src/Trip.antt =====
-- The trip service, trip-service/src: buses with their seats, and trips.
pub mod Model
pub mod Bus
pub mod Service
pub mod Layout
pub mod Schedule
mod Examples
pub mod Controller
pub mod Routes
