-- ===== src/SecureApi/Lock.antt =====
-- Entering and leaving a secure partition: `tfm_push_lock` and `tfm_pop_lock` of
-- secure_fw/core/tfm_secure_api.c. A test of TFM_LVL by the preprocessor is a test of `tfm_lvl`.
use tfm_demo.Prelude.{
  ℕ, Option, none, some, Bool, true, false, not, ◌&&◌, ◌||◌, ◌==◌, if◌then◌else◌, add32, sub32,
  bit0, bit1,
}
use tfm_demo.Machine.{
  Machine, Action, pure, stop, halted, undefined, gets, modify, when, set_psp, set_psplim,
  set_npriv, ◌>>=◌, ◌>>◌,
}
use tfm_demo.Machine.Platform.{Platform}
use tfm_demo.Spm.Types.{
  SpmErr, PartState, invalid_partition_idx, sp_core_id, share_ns_code, share_scratch,
}
use tfm_demo.Spm.Db.{
  get_partition_idx, get_flags, get_partition_id, get_runtime_data, get_running_partition_idx,
  get_stack_bottom, set_state, set_caller_partition_idx, set_orig_psp, set_orig_psplim, set_orig_lr,
  set_stack, set_share, cleanup_context, partition_sandbox_config, partition_sandbox_deconfig,
}
use tfm_demo.SecureApi.Request.{
  SfnReq, tfm_success, tfm_error_partition_non_reentrant, tfm_secure_lock_failed,
  tfm_secure_unlock_failed, exc_num_thread_mode,
}
use tfm_demo.SecureApi.Frame.{prepare_partition_ctx}

-- a != b of truth values
abbrev pub differ : Bool → Bool → Bool
differ true b = not b
differ false b = b

abbrev pub is_uninit : PartState → Bool
is_uninit PartState.uninit = true
is_uninit _ = false

abbrev pub is_idle : PartState → Bool
is_idle PartState.idle = true
is_idle _ = false

-- RUNNING, SUSPENDED or BLOCKED
abbrev pub is_active : PartState → Bool
is_active PartState.running = true
is_active PartState.suspended = true
is_active PartState.blocked = true
is_active _ = false

abbrev pub is_ok : SpmErr → Bool
is_ok SpmErr.ok = true
is_ok _ = false

-- SVC_STACK_FRAME_SIZE
abbrev pub svc_stack_frame_size : ℕ
svc_stack_frame_size = 0x20

-- *lr_ptr = v
unfoldable pub write_lr : Option ℕ → ℕ → Action (Option ℕ)
write_lr none v = stop undefined
write_lr (some _) v = pure (some v)

-- The caller's stack, limit and return address, and who called.
unfoldable pub save_context : ℕ → ℕ → ℕ → ℕ → Action (Unit {0})
unfolding set_orig_psp set_orig_psplim set_orig_lr set_caller_partition_idx
save_context caller idx psp lr = do
  set_orig_psp idx psp
  psplim ← gets (λ m. m.cpu.psplim)
  set_orig_psplim idx psplim
  set_orig_lr idx lr
  set_caller_partition_idx idx caller

-- The caller is blocked, the callee runs, and the lock counts one more.
unfoldable pub hand_over : ℕ → ℕ → Action ℕ
unfolding set_state
hand_over caller idx = do
  set_state caller PartState.blocked
  set_state idx PartState.running
  modify (λ m. record m { secure_lock = add32 m.secure_lock 1 })
  pure tfm_success

-- The callee's context is cleared, and it is idle.
unfoldable pub release : ℕ → Action (Unit {0})
unfolding cleanup_context set_state set_caller_partition_idx
release current = do
  cleanup_context current
  set_state current PartState.idle
  set_caller_partition_idx current invalid_partition_idx

-- The callee is released, and its caller runs again.
unfoldable pub close_call : ℕ → ℕ → Action (Unit {0})
unfolding release set_state
close_call current target = do release current; set_state target PartState.running

module _ (p : Platform) where
  abbrev pub lvl1 : Bool
  lvl1 = p.tfm_lvl == 1

  -- `(TFM_LVL != 1) && (TFM_LVL != 2)`
  abbrev pub sandboxed : Bool
  sandboxed = not lvl1 && not (p.tfm_lvl == 2)

  -- tfm_spm_partition_sandbox_config, and the endless loop if it fails
  unfoldable pub config_or_halt : ℕ → Action (Unit {0})
  unfolding partition_sandbox_config
  config_or_halt idx = do
    e ← partition_sandbox_config p idx
    if is_ok e then pure tt else stop halted

  -- The stack of the callee: its pointer and its limit. Above level 1 the stack of a secure caller
  -- is saved.
  unfoldable pub select_stack : ℕ → ℕ → ℕ → ℕ → Action (ℕ × ℕ)
  unfolding set_stack get_runtime_data get_stack_bottom
  select_stack caller caller_flags idx psp =
      if lvl1 then pure (p.secure_stack_limit, p.secure_stack_base) else do
        when (bit0 caller_flags) (set_stack caller psp)
        r ← get_runtime_data idx
        bottom ← get_stack_bottom idx
        pure (r.stack_ptr, bottom)

  unfoldable pub swap_sandbox : ℕ → ℕ → Action (Unit {0})
  unfolding partition_sandbox_deconfig config_or_halt
  swap_sandbox caller idx =
      when sandboxed (partition_sandbox_deconfig p caller >>= λ _. config_or_halt idx)

  -- Builds the callee's frame and switches to its stack.
  unfoldable pub load_frame : SfnReq → ℕ → ℕ → Action (Unit {0})
  unfolding prepare_partition_ctx
  load_frame desc psp psplim = do
    s ← gets λ m. prepare_partition_ctx p desc (record { dst = psp; words = m.memory })
    modify λ m. record m { memory = s.words }
    set_psp s.dst
    set_psplim psplim

  -- At level 1 only a call from handler mode, or during initialisation, switches the stack.
  unfoldable pub switches : SfnReq → Machine → Bool
  switches desc m = not lvl1 || (not (desc.exc_num == exc_num_thread_mode) || m.secure_api_init)

  -- `tfm_push_lock` once the call is admitted
  unfoldable pub enter_partition : SfnReq → ℕ → ℕ → ℕ → ℕ → ℕ → Action ℕ
  unfolding select_stack save_context swap_sandbox load_frame switches set_share hand_over
  enter_partition desc lr caller caller_flags idx psp = do
    stack ← select_stack caller caller_flags idx psp
    save_context caller idx psp lr
    swap_sandbox caller idx
    set_share p idx (if desc.ns_caller then share_ns_code else share_scratch) >>= λ _. do
      switch ← gets (switches desc)
      when switch (load_frame desc stack.0 stack.1)
      hand_over caller idx

  -- The check of the callee's state. During initialisation the core may enter a partition that is
  -- not initialised, unprivileged above level 1 if it is not trusted.
  unfoldable pub admit_call : SfnReq → ℕ → ℕ → ℕ → ℕ → ℕ → PartState → ℕ → Bool → Action ℕ
  admit_call desc lr caller caller_flags idx psp state flags core_init =
      if core_init && is_uninit state
      then (when (not lvl1 && not (bit1 flags)) (set_npriv true)
          >> enter_partition desc lr caller caller_flags idx psp)
      else if is_active state
      then pure tfm_error_partition_non_reentrant
      else if not (is_idle state)
      then pure tfm_secure_lock_failed
      else enter_partition desc lr caller caller_flags idx psp

  -- `tfm_push_lock` from the look-up of the callee on
  unfoldable pub push_lock_to : SfnReq → ℕ → ℕ → ℕ → Action ℕ
  unfolding admit_call get_runtime_data get_flags get_partition_id
  push_lock_to desc lr caller caller_flags = do
    idx ← gets (λ m. get_partition_idx m.db desc.sp_id)
    psp ← gets (λ m. m.cpu.psp)
    r ← get_runtime_data idx
    flags ← get_flags idx
    init ← gets (λ m. m.secure_api_init)
    caller_id ← get_partition_id caller
    admit_call desc lr caller caller_flags idx psp r.partition_state flags
        (init && caller_id == sp_core_id)

  unfoldable pub push_lock : SfnReq → ℕ → Action ℕ
  unfolding push_lock_to get_running_partition_idx get_flags
  push_lock desc lr = do
    caller ← get_running_partition_idx
    if caller == invalid_partition_idx then pure tfm_secure_lock_failed else do
      caller_flags ← get_flags caller
      if differ (bit0 caller_flags) (not desc.ns_caller)
          then pure tfm_secure_lock_failed
          else push_lock_to desc lr caller caller_flags

  -- Above level 2: the sandbox of the partition that is returned to.
  unfoldable pub return_sandbox : ℕ → ℕ → ℕ → ℕ → Action (Unit {0})
  unfolding config_or_halt get_runtime_data set_share partition_sandbox_deconfig
  return_sandbox current current_flags target target_flags =
      partition_sandbox_deconfig p current >>= λ _. do
        init ← gets λ m. m.secure_api_init
        if init then when (not (bit1 current_flags)) (set_npriv false) else do
          config_or_halt target
          when (bit0 target_flags)
              (do r ← get_runtime_data target; set_share p target r.share >>= λ _. pure tt)

  -- `lr` is what `lr_ptr` points to, `none` for NULL.
  unfoldable pub restore_context : ℕ → ℕ → Option ℕ → Action (Option ℕ)
  unfolding set_stack get_runtime_data write_lr
  restore_context current target_flags lr = do
    init ← gets (λ m. m.secure_api_init)
    if lvl1 && not (not (bit0 target_flags) || init) then pure lr else do
      when (not lvl1)
          (do psp ← gets (λ m. m.cpu.psp); set_stack current (add32 psp svc_stack_frame_size))
      r ← get_runtime_data current
      set_psp r.orig_psp
      set_psplim r.orig_psplim
      write_lr lr r.orig_lr

  unfoldable pub leave_partition : ℕ → ℕ → Option ℕ → Action (ℕ × Option ℕ)
  unfolding restore_context return_sandbox cleanup_context set_state set_caller_partition_idx
      get_flags
  leave_partition current target lr = do
    target_flags ← get_flags target
    current_flags ← get_flags current
    modify λ m. record m { secure_lock = sub32 m.secure_lock 1 }
    when sandboxed (return_sandbox current current_flags target target_flags)
    lr' ← restore_context current target_flags lr
    close_call current target
    pure (tfm_success, lr')

  -- The status, and the value left in `*lr_ptr`, which holds `lr` before.
  unfoldable pub pop_lock : Option ℕ → Action (ℕ × Option ℕ)
  unfolding get_running_partition_idx get_runtime_data
  pop_lock lr = do
    current ← get_running_partition_idx
    if current == invalid_partition_idx then pure (tfm_secure_unlock_failed, lr) else do
      r ← get_runtime_data current
      if r.caller_partition_idx == invalid_partition_idx
          then pure (tfm_secure_unlock_failed, lr)
          else leave_partition current r.caller_partition_idx lr
