-- ===== src/SecureApi.antt =====
-- The calls between partitions, secure_fw/core/tfm_secure_api.c.
pub mod Request
pub mod Frame
pub mod Lock
pub mod View
pub mod Reads
pub mod Entry
pub mod Exit
pub mod Push
pub mod CallStack
pub mod Return
pub mod Unknown
pub mod Progress
pub mod Interrupts
pub mod RequestLaws
pub mod FrameLayout
pub mod MemoryCheck
pub mod Sfn
pub mod Handlers
pub mod HandlerLaws
pub mod ReturnProgress
pub mod Svc
pub mod SvcLaws
