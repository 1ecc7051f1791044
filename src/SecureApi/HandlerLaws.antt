-- ===== src/SecureApi/HandlerLaws.antt =====
-- What the handlers of the caller check and of the buffer area answer and change.
use tfm_demo.Prelude.{ℕ, ◌≡◌, ◌↔◌, ◌⊎◌, true, false, arith, bit0}
use tfm_demo.Machine.{Machine, Post}
use tfm_demo.Machine.Platform.{Platform}
use tfm_demo.Spm.Db.{
  get_running_partition_idx, get_runtime_data, get_flags, share_hal, store_share, set_share,
}
use tfm_demo.SecureApi.Request.{tfm_success}
use tfm_demo.Spm.Types.{share_default, share_scratch, share_ns_code}
use tfm_demo.SecureApi.View.{mark_at, Same}
use tfm_demo.SecureApi.Handlers.{
  validate_secure_caller_handler, requested_share, share_status, set_buffer_area_handler,
}

-- If it comes back, the check changes nothing, and answers success exactly if the running
-- partition and its caller are both secure.
pub validate_secure_caller_handler_iff :
    (m : Machine)
    → Post (validate_secure_caller_handler m) (λ res m'.
      (m' ≡ m)
      × ((res ≡ tfm_success) ↔ (
          (bit0 (mark_at m m.db.running_partition_idx).flags ≡ true)
          × (bit0 (mark_at m (mark_at m m.db.running_partition_idx).caller).flags ≡ true))))
unfolding validate_secure_caller_handler get_running_partition_idx get_runtime_data get_flags
validate_secure_caller_handler_iff m = ground arith

-- The share that a partition holds.
abbrev pub share_of : Machine → ℕ → ℕ
share_of m j = (m.db.partitions j).runtime_data.share

-- What a partition is given that asks for `arg`: the area that it names, or by default the scratch
-- area for a secure caller, and the code of the non-secure side for another.
abbrev pub IsWanted : Machine → ℕ → ℕ → Type 0
IsWanted m arg share =
    ((arg ≡ share_default)
      × (bit0 (mark_at m (mark_at m m.db.running_partition_idx).caller).flags ≡ true)
      × (share ≡ share_scratch))
    ⊎ (((arg ≡ share_default)
          × (bit0 (mark_at m (mark_at m m.db.running_partition_idx).caller).flags ≡ false)
          × (share ≡ share_ns_code))
        ⊎ (((arg ≡ share_scratch) ⊎ (arg ≡ share_ns_code)) × (share ≡ arg)))

-- If it comes back, setting the buffer area touches nothing of the accounting of calls. Where it
-- answers success the request came from a secure partition, which from then on shares what it
-- asked for: the non-secure code or the scratch area, and by default the scratch area if its
-- caller is secure, the non-secure code if not.
pub set_buffer_area_handler-Same :
    (p : Platform) (arg : ℕ) (m : Machine)
    → Post (set_buffer_area_handler p arg m) (λ res m'.
      Same m m'
      × (res ≡ tfm_success
          → (bit0 (mark_at m m.db.running_partition_idx).flags ≡ true)
            × IsWanted m arg (share_of m' m.db.running_partition_idx)))
unfolding set_buffer_area_handler share_status requested_share get_running_partition_idx
    get_runtime_data get_flags set_share share_hal store_share
set_buffer_area_handler-Same p arg m = ground arith
