-- ===== src/Spm/Types.antt =====
-- The partition database and its entries: secure_fw/spm/spm_api.h, spm_db.h, spm_db_setup.h,
-- spm_partition_defs.h and platform/include/tfm_spm_hal.h.
use tfm_demo.Prelude.{ℕ, ◌-◌, Option, word}

-- enum spm_err_t
pub data SpmErr : Type 0 where
  ok partition_db_not_init partition_already_active : SpmErr
  partition_not_available invalid_config : SpmErr

-- enum spm_part_state_t
pub data PartState : Type 0 where
  uninit idle running suspended blocked closed : PartState

-- enum tfm_buffer_share_region_e, as the numbers that cross the SVC boundary
abbrev pub share_disable : ℕ
share_disable = 0

abbrev pub share_ns_code : ℕ
share_ns_code = 1

abbrev pub share_scratch : ℕ
share_scratch = 2

abbrev pub share_priv : ℕ
share_priv = 3

abbrev pub share_default : ℕ
share_default = 4

-- ~0U, for SPM_INVALID_PARTITION_IDX and for INVALID_PARTITION_ID
abbrev pub invalid_partition_idx : ℕ
invalid_partition_idx = word - 1

abbrev pub invalid_partition_id : ℕ
invalid_partition_id = word - 1

abbrev pub sp_non_secure_id : ℕ
sp_non_secure_id = 0

abbrev pub sp_core_id : ℕ
sp_core_id = 1

-- TFM_MAX_USER_PARTITIONS + TFM_INTERNAL_PARTITIONS
abbrev pub max_partitions : ℕ
max_partitions = 8

-- SPM_PART_FLAG_SECURE | SPM_PART_FLAG_TRUSTED
abbrev pub flags_secure_trusted : ℕ
flags_secure_trusted = 3

pub record RuntimeData : Type 0 where
  pub partition_state : PartState
  pub caller_partition_idx : ℕ
  pub orig_psp : ℕ
  pub orig_psplim : ℕ
  pub orig_lr : ℕ
  pub share : ℕ
  pub stack_ptr : ℕ

-- A function pointer is its address; NULL is `none`.
pub record StaticData : Type 0 where
  pub partition_id : ℕ
  pub partition_flags : ℕ
  pub partition_init : Option ℕ

pub record MemoryData : Type 0 where
  pub code_start : ℕ
  pub code_limit : ℕ
  pub ro_start : ℕ
  pub ro_limit : ℕ
  pub rw_start : ℕ
  pub rw_limit : ℕ
  pub zi_start : ℕ
  pub zi_limit : ℕ
  pub stack_bottom : ℕ
  pub stack_top : ℕ

pub record PartitionDesc : Type 0 where
  pub static_data : StaticData
  pub runtime_data : RuntimeData
  pub platform_data : Option ℕ
  pub memory_data : MemoryData

-- The array `partitions[SPM_MAX_PARTITIONS]` is a function that is read and written below
-- `max_partitions` only.
pub record PartitionDb : Type 0 where
  pub is_init : ℕ
  pub partition_count : ℕ
  pub running_partition_idx : ℕ
  pub partitions : ℕ → PartitionDesc
