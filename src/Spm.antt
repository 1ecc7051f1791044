-- ===== src/Spm.antt =====
-- The secure partition manager, secure_fw/spm.
pub mod Types
pub mod Db
pub mod Init
pub mod InitLaws
pub mod Lookup
