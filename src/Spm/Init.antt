-- ===== src/Spm/Init.antt =====
-- The database at start-up, secure_fw/spm/spm_api.c and spm_db_setup.h, and the start of the core,
-- secure_fw/core/tfm_core.c.
use tfm_demo.Prelude.{
  ℕ, zero, suc, ◌+◌, Option, none, some, true, false, not, List, [], ◌∷◌, leb, ◌==◌, if◌then◌else◌,
}
use tfm_demo.Machine.{
  Action, pure, gets, modify, when, set_psplim, set_npriv, configure_default_isolation, ◌>>=◌, ◌>>◌,
}
use tfm_demo.Machine.Platform.{Platform}
use tfm_demo.Spm.Types.{
  SpmErr, PartState, RuntimeData, MemoryData, PartitionDesc, PartitionDb, invalid_partition_idx,
  max_partitions, sp_non_secure_id, sp_core_id, flags_secure_trusted,
}
use tfm_demo.Spm.Db.{
  get_partition_idx, partition_at, put_partition, set_state, set_caller_partition_idx, call_hal,
}
use tfm_demo.SecureApi.Request.{SfnReq, tfm_success, exc_num_thread_mode}
use tfm_demo.SecureApi.Lock.{config_or_halt, is_ok}

-- A cleared entry of the database.
abbrev pub zero_runtime : RuntimeData
zero_runtime = record {
  partition_state = PartState.uninit;
  caller_partition_idx = 0;
  orig_psp = 0;
  orig_psplim = 0;
  orig_lr = 0;
  share = 0;
  stack_ptr = 0;
}

abbrev pub zero_memory : MemoryData
zero_memory = record {
  code_start = 0;
  code_limit = 0;
  ro_start = 0;
  ro_limit = 0;
  rw_start = 0;
  rw_limit = 0;
  zi_start = 0;
  zi_limit = 0;
  stack_bottom = 0;
  stack_top = 0;
}

abbrev pub zero_desc : PartitionDesc
zero_desc = record {
  static_data = record { partition_id = 0; partition_flags = 0; partition_init = none };
  runtime_data = zero_runtime;
  platform_data = none;
  memory_data = zero_memory;
}

abbrev pub zero_db : PartitionDb
zero_db = record {
  is_init = 0;
  partition_count = 0;
  running_partition_idx = invalid_partition_idx;
  partitions = λ _. zero_desc;
}

-- The lines of tfm_partition_list.inc: PARTITION_DECLARE, PARTITION_ADD_INIT_FUNC and
-- PARTITION_ADD_PERIPHERAL.
pub data ListEntry : Type 0 where
  declare_partition : ℕ → ℕ → MemoryData → ListEntry
  add_init_func : ℕ → ℕ → ListEntry
  add_peripheral : ℕ → ℕ → ListEntry

-- The entry at `partition_count` is filled in and counted, or the database is full.
unfoldable pub append_partition : (PartitionDesc → PartitionDesc) → Action SpmErr
append_partition fill = do
  count ← gets (λ m. m.db.partition_count)
  if leb max_partitions count then pure SpmErr.invalid_config else do
    part ← partition_at count
    modify (put_partition count (fill part))
    modify (λ m. record m { db = record m.db { partition_count = m.db.partition_count + 1 } })
    pure SpmErr.ok

abbrev pub with_id : ℕ → ℕ → PartitionDesc → PartitionDesc
with_id id flags part = record part {
  static_data = record part.static_data { partition_id = id; partition_flags = flags };
  runtime_data = record part.runtime_data { partition_state = PartState.uninit };
}

-- Changes the entry of the partition with this ID.
unfoldable pub update_by_id : ℕ → (PartitionDesc → PartitionDesc) → Action SpmErr
update_by_id id f = do
  idx ← gets (λ m. get_partition_idx m.db id)
  part ← partition_at idx
  modify (put_partition idx (f part))
  pure SpmErr.ok

-- if (err) return err;
abbrev pub and_then : Action SpmErr → Action SpmErr → Action SpmErr
and_then a b = a >>= λ e. if is_ok e then b else pure e

module _ (p : Platform) where
  abbrev pub fill_non_secure : PartitionDesc → PartitionDesc
  fill_non_secure part =
      if p.tfm_lvl == 1
      then with_id sp_non_secure_id 0 part
      else record (with_id sp_non_secure_id 0 part) {
        memory_data = record part.memory_data {
          stack_bottom = p.ns_stack_mem;
          stack_top = p.ns_stack_top;
          rw_start = p.ns_stack_mem;
        };
      }

  abbrev pub fill_declared : ℕ → ℕ → MemoryData → PartitionDesc → PartitionDesc
  fill_declared id flags mem part =
      if p.tfm_lvl == 1 then with_id id flags part else record (with_id id flags part) {
        runtime_data = record part.runtime_data {
          partition_state = PartState.uninit;
          stack_ptr = mem.stack_top;
        };
        memory_data = mem;
      }

  unfoldable pub list_entry : ListEntry → Action SpmErr
  unfolding append_partition update_by_id
  list_entry (declare_partition id flags mem) = append_partition (fill_declared id flags mem)
  list_entry (add_init_func id f) =
      update_by_id id
        λ part. record part { static_data = record part.static_data { partition_init = some f } }
  list_entry (add_peripheral id data') =
      update_by_id id λ part. record part { platform_data = some data' }

  unfoldable pub list_entries : List ListEntry → Action SpmErr
  unfolding list_entry
  list_entries [] = pure SpmErr.ok
  list_entries (e ∷ rest) = and_then (list_entry e) (list_entries rest)

  unfoldable pub db_init : List ListEntry → Action SpmErr
  unfolding list_entries append_partition
  db_init entries = do
    modify (λ m. record m { db = zero_db })
    and_then (append_partition (fill_non_secure)) (
        and_then (append_partition (with_id sp_core_id flags_secure_trusted)) (
          and_then (list_entries entries)
            (do modify (λ m. record m { db = record m.db { is_init = 1 } }); pure SpmErr.ok)))

  -- The state of the partition at the index that is the failed partition's ID becomes CLOSED.
  unfoldable pub partition_err_handler : PartitionDesc → Action (Unit {0})
  unfolding set_state
  partition_err_handler part = set_state part.static_data.partition_id PartState.closed

  -- `tfm_secure_api_init_done` of tfm_secure_api.c
  unfoldable pub secure_api_init_done : Action (Unit {0})
  unfolding config_or_halt
  secure_api_init_done = do
    modify (λ m. record m { secure_api_init = false })
    when (not (p.tfm_lvl == 1)) (config_or_halt p sp_non_secure_id)

  -- The end of `main`, and `jump_to_ns_code` up to the call of the non-secure entry
  unfoldable pub start_ns : Action (Unit {0})
  unfolding set_state
  start_ns = do
    set_state sp_core_id PartState.closed
    set_state sp_non_secure_id PartState.running
    when (not (p.tfm_lvl == 1)) (set_npriv true)

  -- `request` is the SVC by which an initialisation function is called.
  module _ (request : SfnReq → Action ℕ) where
    abbrev pub init_request : ℕ → ℕ → SfnReq
    init_request id f = record {
      sp_id = id;
      sfn = some f;
      args = record { arg0 = 0; arg1 = 0; arg2 = 0; arg3 = 0 };
      exc_num = exc_num_thread_mode;
      ns_caller = false;
    }

    -- The number of failures, 0 or 1.
    unfoldable pub run_init : ℕ → PartitionDesc → Option ℕ → Action ℕ
    unfolding set_state set_caller_partition_idx partition_err_handler
    run_init idx part none = do
      set_state idx PartState.idle
      set_caller_partition_idx idx invalid_partition_idx
      pure 0
    run_init idx part (some f) = do
      ret ← request (init_request part.static_data.partition_id f)
      if ret == tfm_success
          then (do set_state idx PartState.idle; pure 0)
          else (do partition_err_handler part; pure 1)

    unfoldable pub init_partition : ℕ → Action ℕ
    unfolding run_init call_hal
    init_partition idx = do
      part ← partition_at idx
      call_hal p (configure_default_isolation part.platform_data) >>= λ _.
          run_init idx part part.static_data.partition_init

    -- The loop over the partitions, from `idx` on for `rounds` rounds.
    unfoldable pub init_partitions : ℕ → ℕ → ℕ → Action ℕ
    unfolding init_partition
    init_partitions zero idx fail_cnt = pure fail_cnt
    init_partitions (suc rounds) idx fail_cnt =
        init_partition idx >>= λ n. init_partitions rounds (idx + 1) (fail_cnt + n)

    -- Nothing changes the count after `db_init`, so the loop's bound is read once.
    unfoldable pub partition_init : Action SpmErr
    unfolding init_partitions secure_api_init_done
    partition_init = do
      count ← gets (λ m. m.db.partition_count)
      fail_cnt ← init_partitions count 0 0
      secure_api_init_done
      pure (if fail_cnt == 0 then SpmErr.ok else SpmErr.partition_not_available)

    -- `main` of tfm_core.c from `tfm_spm_db_init` up to the jump to non-secure code
    unfoldable pub boot : List ListEntry → Action (Unit {0})
    unfolding db_init partition_init start_ns set_state
    boot entries = db_init entries >>= λ _. do
      set_state sp_core_id PartState.running
      set_psplim p.ns_stack_mem
      partition_init >>= λ _. start_ns
