-- ===== src/Sst.antt =====
-- Secure storage, secure_fw/services/secure_storage: the access policy of the asset manager, the
-- table of assets, and the range check of its utilities.
pub mod Policy
pub mod Assets
pub mod Utils
pub mod PolicyLaws
