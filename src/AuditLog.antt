-- ===== src/AuditLog.antt =====
-- The audit log, secure_fw/services/audit_logging/log_core.c: a ring of variable-sized items.
pub mod Buffer
pub mod Item
pub mod Log
pub mod Copy
pub mod Items
pub mod Replace
pub mod Format
pub mod Add
pub mod Delete
pub mod Retrieve
pub mod Recent
pub mod RetrieveLaws
pub mod RecentLaws
