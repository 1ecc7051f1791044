-- ===== src/Manager.antt =====
-- The asset manager: sst_asset_management.c over the policy and the object system.
pub mod World
pub mod Access
pub mod Operations
pub mod Serve
pub mod Permission
pub mod Memory
pub mod OnCore
pub mod Bounds
pub mod Jwt
