-- ===== src/User.antt =====
-- The user service, user-service/src.
pub mod Model
pub mod Settings
pub mod Service
pub mod Laws
pub mod Examples
pub mod Controller
pub mod Routes
