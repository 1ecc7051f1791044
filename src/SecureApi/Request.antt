-- ===== src/SecureApi/Request.antt =====
-- Requests to secure partitions and the status codes: secure_fw/core/tfm_secure_api.h,
-- secure_utilities.h, interface/include/tfm_api.h.
use tfm_demo.Prelude.{ℕ, zero, suc, Bool, Option}

-- enum tfm_status_e, as the 32-bit words that the handlers return
abbrev pub tfm_success : ℕ
tfm_success = 0

abbrev pub tfm_partition_busy : ℕ
tfm_partition_busy = 2

abbrev pub tfm_error_secure_domain_locked : ℕ
tfm_error_secure_domain_locked = 4

abbrev pub tfm_error_invalid_parameter : ℕ
tfm_error_invalid_parameter = 5

abbrev pub tfm_error_partition_non_reentrant : ℕ
tfm_error_partition_non_reentrant = 6

abbrev pub tfm_error_ns_thread_mode_call : ℕ
tfm_error_ns_thread_mode_call = 7

abbrev pub tfm_error_invalid_exc_mode : ℕ
tfm_error_invalid_exc_mode = 8

abbrev pub tfm_secure_lock_failed : ℕ
tfm_secure_lock_failed = 9

abbrev pub tfm_secure_unlock_failed : ℕ
tfm_secure_unlock_failed = 10

abbrev pub tfm_error_generic : ℕ
tfm_error_generic = 0x1f

abbrev pub tfm_partition_specific_error_min : ℕ
tfm_partition_specific_error_min = 0x20

abbrev pub exc_num_thread_mode : ℕ
exc_num_thread_mode = 0

abbrev pub exc_num_svcall : ℕ
exc_num_svcall = 11

-- int32_t args[4]
pub record Args : Type 0 where
  pub arg0 : ℕ
  pub arg1 : ℕ
  pub arg2 : ℕ
  pub arg3 : ℕ

-- args[i]
abbrev pub arg_at : Args → ℕ → ℕ
arg_at a zero = a.arg0
arg_at a (suc zero) = a.arg1
arg_at a (suc (suc zero)) = a.arg2
arg_at a (suc (suc (suc _))) = a.arg3

-- struct tfm_sfn_req_s; the function is its address, NULL is `none`
pub record SfnReq : Type 0 where
  pub sp_id : ℕ
  pub sfn : Option ℕ
  pub args : Args
  pub exc_num : ℕ
  pub ns_caller : Bool
