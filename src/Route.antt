-- ===== src/Route.antt =====
-- The route service, route-service/src.
pub mod Service
pub mod Laws
mod Examples
pub mod Controller
pub mod Routes
