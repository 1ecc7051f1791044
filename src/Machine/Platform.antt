-- ===== src/Machine/Platform.antt =====
-- The build's choices, the linker's symbols and the platform's drivers.
use tfm_demo.Prelude.{ℕ, Bool, List}
use tfm_demo.Machine.State.{HalCall}
use tfm_demo.Spm.Types.{SpmErr}

-- What the instruction TT reports of an address (cmse_address_info_t).
pub record AddressInfo : Type 0 where
  pub secure : Bool
  pub sau_region_valid : Bool
  pub sau_region : ℕ

-- `hal` answers a call of the isolation driver from the calls made so far, that one first;
-- `check_address_range` is cmse_check_address_range: address, size, unprivileged, read-write.
pub record Platform : Type 0 where
  pub tfm_lvl : ℕ
  pub core_debug : Bool
  pub return_from_sfn : ℕ
  pub partition_return_svc : ℕ
  pub secure_stack_base : ℕ
  pub secure_stack_limit : ℕ
  pub s_data_start : ℕ
  pub s_data_limit : ℕ
  pub s_data_size : ℕ
  pub scratch_area : ℕ
  pub scratch_area_size : ℕ
  pub ns_stack_mem : ℕ
  pub ns_stack_top : ℕ
  pub hal : List HalCall → SpmErr
  pub check_address_range : ℕ → ℕ → Bool → Bool → Bool
  pub address_info : ℕ → AddressInfo
