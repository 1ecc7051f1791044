-- ===== src/SecureApi/Handlers.antt =====
-- The services of the core to running partitions, secure_fw/core/tfm_secure_api.c: the checks of a
-- caller and of a memory range, and the choice of the shared buffer area.
use tfm_demo.Prelude.{
  ℕ, Option, none, some, Bool, not, ◌&&◌, ◌||◌, leb, ◌==◌, if◌then◌else◌, add32, sub32, bit0,
}
use tfm_demo.Machine.{Action, pure, ◌>>=◌}
use tfm_demo.Machine.Platform.{Platform, AddressInfo}
use tfm_demo.Spm.Types.{share_ns_code, share_scratch, share_priv, share_default}
use tfm_demo.Spm.Db.{get_flags, get_runtime_data, get_running_partition_idx, set_share}
use tfm_demo.SecureApi.Request.{tfm_success, tfm_error_invalid_parameter, tfm_error_generic}
use tfm_demo.SecureApi.Lock.{is_ok}

-- enum tfm_memory_access_e, enum tfm_ns_region_e
abbrev pub access_ro : ℕ
access_ro = 1

abbrev pub access_rw : ℕ
access_rw = 2

abbrev pub ns_region_code : ℕ
ns_region_code = 0

abbrev pub ns_region_data : ℕ
ns_region_data = 1

-- The word left in `svc_args[0]`.
unfoldable pub validate_secure_caller_handler : Action ℕ
unfolding get_running_partition_idx get_runtime_data get_flags
validate_secure_caller_handler = do
  running ← get_running_partition_idx
  r ← get_runtime_data running
  running_flags ← get_flags running
  caller_flags ← get_flags r.caller_partition_idx
  pure (
      if not (bit0 running_flags)
      then tfm_error_invalid_parameter
      else if bit0 caller_flags
      then tfm_success
      else tfm_error_generic)

-- The final test on secure memory, in 32-bit arithmetic.
unfoldable pub in_range : ℕ → ℕ → ℕ → ℕ → ℕ → Bool
in_range max_buf_size ptr_start range_limit ptr size =
    leb size max_buf_size && (leb ptr_start ptr && leb ptr (sub32 (add32 range_limit 1) size))

-- Whether a region of non-secure memory may be accessed.
unfoldable pub ns_region_status : ℕ → ℕ → ℕ
ns_region_status access region =
    if region == ns_region_code
    then (if access == access_rw then tfm_error_invalid_parameter else tfm_success)
    else if region == ns_region_data
    then tfm_success
    else tfm_error_invalid_parameter

module _ (p : Platform) where
  -- The secure memory that partitions may name: all data at level 1, else the scratch area.
  unfoldable pub secure_range_check : ℕ → ℕ → Bool
  unfolding in_range
  secure_range_check ptr size =
      if p.tfm_lvl == 1
      then in_range p.s_data_size p.s_data_start p.s_data_limit ptr size
      else in_range p.scratch_area_size p.scratch_area
          (sub32 (add32 p.scratch_area p.scratch_area_size) 1) ptr size

  unfoldable pub range_status : ℕ → ℕ → ℕ → AddressInfo → ℕ
  unfolding secure_range_check ns_region_status
  range_status ptr size access info =
      if info.secure
      then (if secure_range_check ptr size then tfm_success else tfm_error_invalid_parameter)
      else if not info.sau_region_valid
      then tfm_error_invalid_parameter
      else ns_region_status access info.sau_region

  unfoldable pub memory_permission_check_handler : ℕ → ℕ → ℕ → Action ℕ
  unfolding get_running_partition_idx get_runtime_data get_flags
  memory_permission_check_handler ptr size access = do
    running ← get_running_partition_idx
    r ← get_runtime_data running
    running_flags ← get_flags running
    pure (
        if not (bit0 running_flags) || size == 0
        then tfm_error_invalid_parameter
        else if not
            (p.check_address_range ptr size (not (r.share == share_priv)) (access == access_rw))
        then tfm_error_invalid_parameter
        else range_status ptr size access (p.address_info ptr))

  -- The area that a request names.
  unfoldable pub requested_share : ℕ → ℕ → Option ℕ
  requested_share caller_flags arg =
      if arg == share_default
      then some (if not (bit0 caller_flags) then share_ns_code else share_scratch)
      else if arg == share_scratch || arg == share_ns_code
      then some arg
      else none

  unfoldable pub share_status : ℕ → Option ℕ → Action ℕ
  unfolding set_share
  share_status running none = pure tfm_error_invalid_parameter
  share_status running (some share) = do
    e ← set_share p running share
    pure (if is_ok e then tfm_success else tfm_error_invalid_parameter)

  unfoldable pub set_buffer_area_handler : ℕ → Action ℕ
  unfolding share_status requested_share get_running_partition_idx get_runtime_data get_flags
  set_buffer_area_handler arg = do
    running ← get_running_partition_idx
    r ← get_runtime_data running
    running_flags ← get_flags running
    caller_flags ← get_flags r.caller_partition_idx
    if not (bit0 running_flags)
        then pure tfm_error_invalid_parameter
        else share_status running (requested_share caller_flags arg)
