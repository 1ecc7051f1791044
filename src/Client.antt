-- ===== src/Client.antt =====
-- The way of a client's call from the non-secure side to the service: src of interface/.
pub mod Api
pub mod Route
pub mod NsLock
pub mod Packing
pub mod ThreadId
pub mod RouteLaws
