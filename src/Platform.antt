-- ===== src/Platform.antt =====
-- What the services run on and do not implement: a database behind Prisma's client, and Redis.
-- Each is an interface with its documented behaviour; `Memory` has one value of each. Url: what a path
-- with an id written into it is read as. Uuid: how PostgreSQL spells a UUID.
pub mod Table
pub mod Redis
pub mod Order
pub mod Rows
pub mod Memory
pub mod Express
pub mod Url
pub mod Uuid
