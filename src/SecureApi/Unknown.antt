-- ===== src/SecureApi/Unknown.antt =====
-- Calls to partitions that are not in the database.
use tfm_demo.Prelude.{ℕ, ◌<◌, ◌≡◌, not, arith, bit0}
use tfm_demo.Machine.{Machine, stopped, undefined}
use tfm_demo.Machine.Platform.{Platform}
use tfm_demo.Spm.Types.{max_partitions, invalid_partition_idx}
use tfm_demo.Spm.Db.{get_partition_idx, get_running_partition_idx, get_flags, get_runtime_data}
use tfm_demo.SecureApi.Request.{SfnReq}
use tfm_demo.SecureApi.Lock.{push_lock, push_lock_to}
use tfm_demo.SecureApi.View.{mark_at}

-- A consistent request for an ID that is not in the database reads the database outside the array:
-- the result of the look-up is used as an index with no check.
pub push_lock-unknown_partition :
    (p : Platform) (d : SfnReq) (lr : ℕ) (m : Machine)
    → m.db.running_partition_idx < max_partitions
    → bit0 (mark_at m m.db.running_partition_idx).flags ≡ not d.ns_caller
    → get_partition_idx m.db d.sp_id ≡ invalid_partition_idx
    → push_lock p d lr m ≡ stopped undefined
unfolding push_lock push_lock_to get_running_partition_idx get_flags get_runtime_data
push_lock-unknown_partition p d lr m lt agree absent = ground arith
