-- ===== src/SecureApi/Sfn.antt =====
-- Requests of secure functions and their return, secure_fw/core/tfm_secure_api.c:
-- `tfm_core_sfn_request_function`, the SVC handlers of request and return, and what they call.
use tfm_demo.Prelude.{
  ℕ, ◌+◌, ◌/◌, Option, none, some, Bool, true, false, not, ◌&&◌, ◌||◌, ltb, ◌==◌, if◌then◌else◌,
  bit0, bit_and, bit_or, not32, ◌^◌,
}
use tfm_demo.Machine.{
  Action, pure, stop, halted, gets, modify, when, disable_irq, enable_irq, ◌>>=◌, ◌>>◌,
}
use tfm_demo.Machine.Platform.{Platform}
use tfm_demo.SecureApi.Request.{
  SfnReq, Args, tfm_success, tfm_partition_busy, tfm_error_invalid_parameter,
  tfm_error_invalid_exc_mode, tfm_error_ns_thread_mode_call, tfm_error_secure_domain_locked,
  exc_num_thread_mode, exc_num_svcall, tfm_partition_specific_error_min,
}
use tfm_demo.SecureApi.Lock.{push_lock, pop_lock}

-- sfn == NULL
abbrev pub is_null : Option ℕ → Bool
is_null none = true
is_null (some _) = false

-- *lr_ptr through a pointer that is not NULL
abbrev pub value_or : ℕ → Option ℕ → ℕ
value_or d none = d
value_or d (some v) = v

-- A descriptor whose pointer may be NULL.
unfoldable pub check_sfn_req_integrity : Option SfnReq → ℕ
check_sfn_req_integrity none = tfm_error_invalid_parameter
check_sfn_req_integrity (some d) =
    if d.sp_id == 0 || is_null d.sfn then tfm_error_invalid_parameter else tfm_success

-- The rules on who calls from which mode; `lock` is `tfm_secure_lock`.
unfoldable pub check_sfn_req_rules : SfnReq → ℕ → ℕ
check_sfn_req_rules d lock =
    if not (d.exc_num == exc_num_thread_mode) && not (d.exc_num == exc_num_svcall)
    then tfm_error_invalid_exc_mode
    else if d.ns_caller
    then (if d.exc_num == exc_num_thread_mode
        then tfm_error_ns_thread_mode_call
        else if not (lock == 0)
        then tfm_error_secure_domain_locked
        else tfm_success)
    else if not (d.exc_num == exc_num_thread_mode)
    then tfm_error_invalid_exc_mode
    else tfm_success

-- SCB_AIRCR_VECTKEYSTAT_Msk and SCB_AIRCR_VECTKEY_Msk, SCB_AIRCR_PRIS_Msk, SCB_SHCSR_SVCALLACT_Msk
abbrev pub vectkey_mask : ℕ
vectkey_mask = 0xffff_0000

abbrev pub pris_mask : ℕ
pris_mask = 0x4000

abbrev pub svcallact_mask : ℕ
svcallact_mask = 0x80

-- VECTKEY | (ns_state.AIRCR & ~SCB_AIRCR_VECTKEY_Msk), with the key complemented
abbrev pub keyed_aircr : ℕ → ℕ
keyed_aircr a = bit_or (bit_and (not32 a) vectkey_mask) (bit_and a (not32 vectkey_mask))

unfoldable pub configure_secure_exception : Action (Unit {0})
configure_secure_exception = modify λ m. record m {
  ns_state_aircr = m.cpu.aircr;
  cpu = record m.cpu {
    shcsr = bit_or m.cpu.shcsr svcallact_mask;
    aircr = bit_or pris_mask (keyed_aircr m.cpu.aircr);
  };
}

unfoldable pub deconfigure_secure_exception : Action (Unit {0})
deconfigure_secure_exception = modify λ m. record m {
  cpu = record m.cpu {
    aircr = bit_and (not32 pris_mask) (keyed_aircr m.ns_state_aircr);
    shcsr = bit_and m.cpu.shcsr (not32 svcallact_mask);
    spsel = true;
  };
}

-- `retVal > TFM_SUCCESS && retVal < TFM_PARTITION_SPECIFIC_ERROR_MIN` of a signed 32-bit word
unfoldable pub is_reserved : ℕ → Bool
is_reserved w = (ltb 0 w && ltb w (2 ^ 31)) && ltb w tfm_partition_specific_error_min

-- lr & EXC_RETURN_STACK_PROCESS
abbrev pub on_process_stack : ℕ → Bool
on_process_stack lr = bit0 (lr / 4)

-- a | 1
abbrev pub or_one : ℕ → ℕ
or_one a = if bit0 a then a else a + 1

-- What runs between an entry and the return to its caller: a secure function that is called with
-- its arguments, and an exception return up to the label `return_from_sfn`.
pub record Partitions : Type 0 where
  pub call : Option ℕ → Args → Action ℕ
  pub exc_return : Action ℕ

module _ (p : Platform) where
  -- TFM_ERROR_STATUS
  unfoldable pub error_status : ℕ → ℕ
  error_status status = if p.core_debug then status else tfm_partition_busy

  -- The end of a direct call: the caller's status, or the endless loop.
  unfoldable pub unlock_or_halt : Option ℕ → Action (Option ℕ)
  unlock_or_halt lr = do r ← pop_lock p lr; if r.0 == tfm_success then pure r.1 else stop halted

  module _ (sfns : Partitions) where
    unfoldable pub call_sfn : SfnReq → Action ℕ
    unfolding unlock_or_halt
    call_sfn d = do
      init ← gets (λ m. m.secure_api_init)
      if (p.tfm_lvl == 1) && (d.exc_num == exc_num_thread_mode && not init)
          then (do ret ← sfns.call d.sfn d.args; unlock_or_halt none >>= λ _. pure ret)
          else sfns.exc_return

    -- `tfm_core_sfn_request_function` from the lock on
    unfoldable pub request_admitted : SfnReq → Action ℕ
    unfolding configure_secure_exception deconfigure_secure_exception error_status
    request_admitted d = do
      res ← push_lock p d (or_one p.return_from_sfn)
      if not (res == tfm_success) then (do enable_irq; pure (error_status res)) else do
        when d.ns_caller configure_secure_exception
        enable_irq
        ret ← call_sfn d
        when d.ns_caller (do disable_irq; deconfigure_secure_exception; enable_irq)
        pure ret

    unfoldable pub request_checked : SfnReq → Action ℕ
    unfolding error_status
    request_checked d = do
      disable_irq
      lock ← gets (λ m. m.secure_lock)
      if not (check_sfn_req_rules d lock == tfm_success)
          then (do enable_irq; pure (error_status (check_sfn_req_rules d lock)))
          else request_admitted d

    unfoldable pub sfn_request_function : Option SfnReq → Action ℕ
    unfolding error_status
    sfn_request_function none = pure (error_status (check_sfn_req_integrity none))
    sfn_request_function (some d) =
        if not (check_sfn_req_integrity (some d) == tfm_success)
        then pure (error_status (check_sfn_req_integrity (some d)))
        else request_checked d

    -- The word left in `svc_ctx[0]`.
    unfoldable pub partition_request_svc_handler : ℕ → Option SfnReq → Action ℕ
    unfolding sfn_request_function
    partition_request_svc_handler lr none =
        if not (on_process_stack lr)
        then stop halted
        else pure (error_status (check_sfn_req_integrity none))
    partition_request_svc_handler lr (some d) =
        if not (on_process_stack lr)
        then stop halted
        else if not (check_sfn_req_integrity (some d) == tfm_success)
        then pure (error_status (check_sfn_req_integrity (some d)))
        else if not (d.exc_num == exc_num_thread_mode)
        then pure (error_status tfm_error_invalid_parameter)
        else sfn_request_function (some d)

  -- The value returned to the caller, and the value left in `*lr_ptr`.
  unfoldable pub partition_return_handler : ℕ → Action (ℕ × ℕ)
  unfolding is_reserved unlock_or_halt
  partition_return_handler lr = do
    disable_irq
    if not (on_process_stack lr) then stop halted else do
      ret ← gets (λ m. m.memory m.cpu.psp)
      if not (ret == tfm_partition_busy) && is_reserved ret then stop halted else do
        lr' ← unlock_or_halt (some lr)
        if not (value_or lr lr' == or_one p.return_from_sfn)
            then stop halted
            else do enable_irq; pure (ret, value_or lr lr')
