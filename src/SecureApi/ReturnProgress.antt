-- ===== src/SecureApi/ReturnProgress.antt =====
-- `tfm_pop_lock` comes back.
use tfm_demo.Prelude.{ℕ, ◌<◌, ◌≡◌, ◌≢◌, ◌∷◌, List, some, Option, Bool, arith, sub32, refl}
use tfm_demo.Machine.{
  Machine, HalCall, sandbox_config, sandbox_deconfig, Returns, Returns-bind, Post-any, when, pure,
  ◌>>=◌,
}
use tfm_demo.Machine.Platform.{Platform}
use tfm_demo.Spm.Types.{SpmErr, max_partitions}
use tfm_demo.Spm.Db.{
  get_running_partition_idx, get_runtime_data, get_flags, set_share, share_hal, store_share,
  set_state, cleanup_context, set_caller_partition_idx, set_stack,
}
use tfm_demo.SecureApi.Request.{tfm_success}
use tfm_demo.SecureApi.View.{mark_at}
use tfm_demo.SecureApi.Lock.{
  pop_lock, leave_partition, return_sandbox, restore_context, release, close_call, sandboxed,
  config_or_halt, write_lr,
}

-- The result of a return.
abbrev ok_with : Option ℕ → ℕ × Option ℕ
ok_with lr = (tfm_success, lr)

module _ (p : Platform) (hal_ok : (calls : List HalCall) → p.hal calls ≡ SpmErr.ok) where
  return_sandbox-Returns :
      (b : Bool) (current flags target target_flags : ℕ) (m : Machine)
      → current < max_partitions
      → target < max_partitions
      → m.db.is_init ≢ 0
      → Returns (when b (return_sandbox p current flags target target_flags) m) (λ _ m'. Unit)
  unfolding return_sandbox config_or_halt get_runtime_data set_share share_hal store_share
  return_sandbox-Returns b current flags target target_flags m lt lt' init = ground (
    arith,
    hal_ok (
        sandbox_config (m.db.partitions target).memory_data (m.db.partitions target).platform_data
        ∷ sandbox_deconfig (m.db.partitions current).memory_data
            (m.db.partitions current).platform_data
        ∷ m.hal_calls),
  )

  restore_context-Returns :
      (current flags lr : ℕ) (m : Machine)
      → current < max_partitions
      → Returns (restore_context p current flags (some lr) m) (λ _ m'. Unit)
  unfolding restore_context set_stack get_runtime_data write_lr
  restore_context-Returns current flags lr m lt = ground arith

  close_call-Returns :
      (current target : ℕ) (m : Machine)
      → current < max_partitions
      → target < max_partitions
      → Returns (close_call current target m) (λ _ m'. Unit)
  unfolding close_call release cleanup_context set_state set_caller_partition_idx
  close_call-Returns current target m lt lt' = ground arith

  -- `leave_partition` from the change of the sandbox on.
  left-Returns :
      (current target flags target_flags lr : ℕ) (m : Machine)
      → current < max_partitions
      → target < max_partitions
      → m.db.is_init ≢ 0
      → Returns
          ((when (sandboxed p) (return_sandbox p current flags target target_flags) >>= λ _.
              restore_context p current target_flags (some lr) >>= λ lr'.
              close_call current target >>= λ _. pure (ok_with lr'))
            m)
          (λ r _. r.0 ≡ tfm_success)
  left-Returns current target flags target_flags lr m lt lt' init =
      Returns-bind (when (sandboxed p) (return_sandbox p current flags target target_flags) m) _
        (return_sandbox-Returns (sandboxed p) current flags target target_flags m lt lt' init)
        (Post-any _)
        λ _ m1 _.
          Returns-bind (restore_context p current target_flags (some lr) m1) _
            (restore_context-Returns current target_flags lr m1 lt) (Post-any _)
            λ lr' m2 _.
              Returns-bind (close_call current target m2) _
                (close_call-Returns current target m2 lt lt') (Post-any _)
                λ _ m3 _. record { holds = refl }

  -- Where the isolation driver reports no error and the database is initialised, the return from a
  -- running partition of the database to its caller, which is one too, comes back with success.
  pub pop_lock-Returns :
      (lr : ℕ) (m : Machine)
      → m.db.running_partition_idx < max_partitions
      → (mark_at m m.db.running_partition_idx).caller < max_partitions
      → m.db.is_init ≢ 0
      → Returns (pop_lock p (some lr) m) (λ r _. r.0 ≡ tfm_success)
  unfolding pop_lock leave_partition get_running_partition_idx get_runtime_data get_flags
  pop_lock-Returns lr m lt lt' init = ground (
    arith,
    left-Returns m.db.running_partition_idx (mark_at m m.db.running_partition_idx).caller
        (mark_at m m.db.running_partition_idx).flags
        (mark_at m (mark_at m m.db.running_partition_idx).caller).flags lr
        (record m { secure_lock = sub32 m.secure_lock 1 }) lt lt' init,
  )
