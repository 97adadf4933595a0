-- ===== src/Payment.antt =====
-- The payment service, payment-service/src.
pub mod Model
pub mod Repository
pub mod Service
pub mod Laws
pub mod Refund
pub mod Unique
pub mod Kept
mod Examples
pub mod Controller
pub mod Answer
pub mod Routes
pub mod Concurrent
