-- ===== src/Utils.antt =====
-- The shared package, utils/src.
pub mod StatusCode
pub mod Errors
pub mod Response
pub mod Duration
pub mod Jwt
pub mod Examples
