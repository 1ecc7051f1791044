-- ===== src/Spm/InitLaws.antt =====
-- The database after start-up, and what a failing initialisation function leads to.
use tfm_demo.Prelude.{ℕ, ◌≤◌, ◌≡◌, ◌≢◌, some, arith}
use tfm_demo.Machine.{Machine, Action, done, stopped, undefined}
use tfm_demo.Machine.Platform.{Platform}
use tfm_demo.Spm.Types.{
  PartitionDesc, max_partitions, sp_non_secure_id, sp_core_id, flags_secure_trusted,
  invalid_partition_idx, PartState,
}
use tfm_demo.SecureApi.Request.{SfnReq, tfm_success}
use tfm_demo.Spm.Init.{run_init, init_request}

-- The first two entries are those of the non-secure environment and of the core.
pub record IsSetUp (p : Platform) (m : Machine) : Type 0 where
  pub at_least : 2 ≤ m.db.partition_count
  pub at_most : m.db.partition_count ≤ max_partitions
  pub no_running : m.db.running_partition_idx ≡ invalid_partition_idx
  pub non_secure : (m.db.partitions 0).static_data.partition_id ≡ sp_non_secure_id
  pub non_secure_flags : (m.db.partitions 0).static_data.partition_flags ≡ 0
  pub core : (m.db.partitions 1).static_data.partition_id ≡ sp_core_id
  pub core_flags : (m.db.partitions 1).static_data.partition_flags ≡ flags_secure_trusted
  pub core_state : (m.db.partitions 1).runtime_data.partition_state ≡ PartState.uninit

module _ (p : Platform) where
  -- If the initialisation function of a partition fails whose ID is not below the size of the array,
  -- the handling of the error takes the ID for an index and accesses the database outside the array.
  pub run_init-failure :
      (request : SfnReq → Action ℕ) (idx f ret : ℕ) (part : PartitionDesc) (m m' : Machine)
      → request (init_request p request part.static_data.partition_id f) m ≡ done ret m'
      → ret ≢ tfm_success
      → max_partitions ≤ part.static_data.partition_id
      → run_init p request idx part (some f) m ≡ stopped undefined
  unfolding run_init
  run_init-failure request idx f ret part m m' e bad big = rw e (ground arith)
