-- ===== src/Booking.antt =====
-- The booking service, booking-service/src.
pub mod Model
pub mod Segments
pub mod Repository
pub mod Lock
pub mod Service
pub mod Overlap
pub mod Exclusive
pub mod Availability
pub mod Safety
pub mod Hold
pub mod Concurrent
pub mod SeatMap
mod Examples
pub mod Deadline
pub mod Controller
pub mod Confirm
pub mod Kept
pub mod Forwards
pub mod Routes
