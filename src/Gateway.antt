-- ===== src/Gateway.antt =====
-- The API gateway, api-gateway/src.
pub mod Auth
pub mod Routes
pub mod Laws
pub mod Reach
pub mod Settings
pub mod Login
pub mod Sagas
pub mod Identity
mod Runs
mod LoginRuns
mod Examples
