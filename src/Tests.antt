-- ===== src/Tests.antt =====
-- Concrete platforms, machines and logs, and the theorems applied to them.
pub mod Sample
pub mod Calls
pub mod Checks
pub mod Stores
pub mod Flash
pub mod Updates
pub mod Services
pub mod Held
