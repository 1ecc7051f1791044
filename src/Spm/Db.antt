-- ===== src/Spm/Db.antt =====
-- The accessors of the partition database, secure_fw/spm/spm_api.c. An index outside the array is
-- an undefined access.
use tfm_demo.Prelude.{ℕ, zero, suc, ◌+◌, ◌∷◌, ltb, ◌==◌, if◌then◌else◌}
use tfm_demo.Machine.{
  Machine, HalCall, sandbox_config, sandbox_deconfig, set_share_region, Action, done, stopped,
  undefined, pure, gets, modify, ◌>>=◌, ◌>>◌,
}
use tfm_demo.Machine.Platform.{Platform}
use tfm_demo.Spm.Types.{
  SpmErr, PartState, RuntimeData, PartitionDesc, PartitionDb, invalid_partition_id,
  invalid_partition_idx, max_partitions,
}

-- The loop of `get_partition_idx`, from index `i` on, over `count` entries.
unfoldable pub find_partition : (ℕ → PartitionDesc) → ℕ → ℕ → ℕ → ℕ
find_partition ps id i zero = invalid_partition_idx
find_partition ps id i (suc count) =
    if (ps i).static_data.partition_id == id then i else find_partition ps id (i + 1) count

unfoldable pub get_partition_idx : PartitionDb → ℕ → ℕ
get_partition_idx db id =
    if id == invalid_partition_id
    then invalid_partition_idx
    else find_partition db.partitions id 0 db.partition_count

-- g_spm_partition_db.partitions[idx]
abbrev pub partition_at : ℕ → Action PartitionDesc
partition_at idx m =
    if ltb idx max_partitions then done (m.db.partitions idx) m else stopped undefined

-- The state with partition `idx` replaced.
abbrev pub put_partition : ℕ → PartitionDesc → Machine → Machine
put_partition idx p m = record m {
  db = record m.db { partitions = λ j. if j == idx then p else m.db.partitions j };
}

abbrev pub set_runtime : ℕ → (RuntimeData → RuntimeData) → Action (Unit {0})
set_runtime idx f = do
  p ← partition_at idx
  modify (put_partition idx (record p { runtime_data = f p.runtime_data }))

unfoldable pub get_flags : ℕ → Action ℕ
get_flags idx = do p ← partition_at idx; pure p.static_data.partition_flags

unfoldable pub get_partition_id : ℕ → Action ℕ
get_partition_id idx = do p ← partition_at idx; pure p.static_data.partition_id

unfoldable pub get_runtime_data : ℕ → Action RuntimeData
get_runtime_data idx = do p ← partition_at idx; pure p.runtime_data

unfoldable pub get_stack_bottom : ℕ → Action ℕ
get_stack_bottom idx = do p ← partition_at idx; pure p.memory_data.stack_bottom

unfoldable pub get_stack_top : ℕ → Action ℕ
get_stack_top idx = do p ← partition_at idx; pure p.memory_data.stack_top

unfoldable pub get_running_partition_idx : Action ℕ
get_running_partition_idx = gets λ m. m.db.running_partition_idx

-- The running index follows a partition that becomes RUNNING.
unfoldable pub running_after : ℕ → PartState → ℕ → ℕ
running_after idx PartState.running old = idx
running_after idx s old = old

unfoldable pub set_state : ℕ → PartState → Action (Unit {0})
unfolding running_after
set_state idx s = do
  set_runtime idx (λ r. record r { partition_state = s })
  modify λ m. record m {
    db = record m.db { running_partition_idx = running_after idx s m.db.running_partition_idx };
  }

unfoldable pub set_caller_partition_idx : ℕ → ℕ → Action (Unit {0})
set_caller_partition_idx idx caller =
    set_runtime idx λ r. record r { caller_partition_idx = caller }

unfoldable pub set_orig_psp : ℕ → ℕ → Action (Unit {0})
set_orig_psp idx v = set_runtime idx λ r. record r { orig_psp = v }

unfoldable pub set_orig_psplim : ℕ → ℕ → Action (Unit {0})
set_orig_psplim idx v = set_runtime idx λ r. record r { orig_psplim = v }

unfoldable pub set_orig_lr : ℕ → ℕ → Action (Unit {0})
set_orig_lr idx v = set_runtime idx λ r. record r { orig_lr = v }

unfoldable pub set_stack : ℕ → ℕ → Action (Unit {0})
set_stack idx v = set_runtime idx λ r. record r { stack_ptr = v }

unfoldable pub cleanup_context : ℕ → Action (Unit {0})
cleanup_context idx = set_runtime idx λ r. record r {
  caller_partition_idx = invalid_partition_idx;
  orig_psp = 0;
  orig_psplim = 0;
  orig_lr = 0;
  share = 0;
}

module _ (p : Platform) where
  -- A call of the isolation driver.
  unfoldable pub call_hal : HalCall → Action SpmErr
  call_hal c m = done (p.hal (c ∷ m.hal_calls)) (record m { hal_calls = c ∷ m.hal_calls })

  unfoldable pub partition_sandbox_config : ℕ → Action SpmErr
  unfolding call_hal
  partition_sandbox_config idx m =
      if m.db.is_init == 0
      then done SpmErr.partition_db_not_init m
      else (do d ← partition_at idx; call_hal (sandbox_config d.memory_data d.platform_data)) m

  unfoldable pub partition_sandbox_deconfig : ℕ → Action SpmErr
  unfolding call_hal
  partition_sandbox_deconfig idx = do
    d ← partition_at idx
    call_hal (sandbox_deconfig d.memory_data d.platform_data)

  unfoldable pub share_hal : ℕ → Action SpmErr
  unfolding call_hal
  share_hal share = if p.tfm_lvl == 1 then pure SpmErr.ok else call_hal (set_share_region share)

  unfoldable pub store_share : ℕ → ℕ → SpmErr → Action SpmErr
  store_share idx share SpmErr.ok = do
    set_runtime idx (λ r. record r { share = share })
    pure SpmErr.ok
  store_share idx share e = pure e

  unfoldable pub set_share : ℕ → ℕ → Action SpmErr
  unfolding share_hal store_share
  set_share idx share = do ret ← share_hal share; store_share idx share ret
