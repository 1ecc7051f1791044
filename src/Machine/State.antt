-- ===== src/Machine/State.antt =====
-- The globals of spm_api.c and tfm_secure_api.c, with the registers of the Cortex-M core that these
-- files read and write.
use tfm_demo.Prelude.{ℕ, Bool, Option, List, ◌==◌, if◌then◌else◌}
use tfm_demo.Spm.Types.{PartitionDb, MemoryData}

-- PSP, PSPLIM, CONTROL.nPRIV, CONTROL.SPSEL, PRIMASK, and SCB->AIRCR and SCB->SHCSR.
pub record Cpu : Type 0 where
  pub psp : ℕ
  pub psplim : ℕ
  pub npriv : Bool
  pub spsel : Bool
  pub irq_disabled : Bool
  pub aircr : ℕ
  pub shcsr : ℕ

-- The calls of the platform's isolation driver (platform/include/tfm_spm_hal.h).
pub data HalCall : Type 0 where
  sandbox_config sandbox_deconfig : MemoryData → Option ℕ → HalCall
  set_share_region : ℕ → HalCall
  configure_default_isolation : Option ℕ → HalCall

-- `hal_calls` lists the calls made, the latest first; `memory` holds the word at each address.
pub record Machine : Type 0 where
  pub db : PartitionDb
  pub secure_lock : ℕ
  pub secure_api_init : Bool
  pub ns_state_aircr : ℕ
  pub cpu : Cpu
  pub memory : ℕ → ℕ
  pub hal_calls : List HalCall

-- *a = v
abbrev pub store_word : (ℕ → ℕ) → ℕ → ℕ → ℕ → ℕ
store_word f a v x = if x == a then v else f x
