-- ===== src/Machine.antt =====
-- What the secure firmware core runs on: its global variables with the registers and the memory
-- that it touches, and actions on them.
mod State
mod Effects
pub mod Platform
mod Partial
pub use Partial.*
pub use State.*
pub use Effects.*
