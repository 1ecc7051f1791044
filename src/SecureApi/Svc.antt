-- ===== src/SecureApi/Svc.antt =====
-- The SVC of the secure side: SVCHandler_main of tfm_handler.c, which calls the handlers of
-- tfm_secure_api.c, and tfm_core_partition_request of tfm_secure_api.h, which a veneer calls.
use tfm_demo.Prelude.{ℕ, ◌/◌, ◌%◌, Option, some, Bool, not, ◌&&◌, ◌==◌, if◌then◌else◌, bit0, sub32}
use tfm_demo.Machine.{Action, pure, ◌>>=◌}
use tfm_demo.Machine.Platform.{Platform}
use tfm_demo.SecureApi.Request.{SfnReq, tfm_success, tfm_error_generic, exc_num_thread_mode}
use tfm_demo.SecureApi.Sfn.{
  Partitions, sfn_request_function, partition_request_svc_handler, partition_return_handler,
}
use tfm_demo.SecureApi.Handlers.{
  validate_secure_caller_handler, memory_permission_check_handler, set_buffer_area_handler,
}

-- tfm_svc_number_t
abbrev pub svc_sfn_request : ℕ
svc_sfn_request = 0

abbrev pub svc_sfn_return : ℕ
svc_sfn_return = 1

abbrev pub svc_validate_secure_caller : ℕ
svc_validate_secure_caller = 2

abbrev pub svc_memory_check : ℕ
svc_memory_check = 3

abbrev pub svc_set_share_area : ℕ
svc_set_share_area = 4

abbrev pub svc_print : ℕ
svc_print = 5

-- lr & EXC_RETURN_SECURE_STACK
abbrev pub on_secure_stack : ℕ → Bool
on_secure_stack lr = bit0 (lr / 64)

-- svc_args[0] to svc_args[2], and svc_args[6]
pub record SvcArgs : Type 0 where
  pub r0 : ℕ
  pub r1 : ℕ
  pub r2 : ℕ
  pub return_address : ℕ

-- The value returned, and what is left in svc_args[0] and in *lr_ptr.
pub record SvcEnd : Type 0 where
  pub status : ℕ
  pub r0 : ℕ
  pub lr : ℕ

abbrev pub ended : ℕ → ℕ → ℕ → SvcEnd
ended status r0 lr = record { status = status; r0 = r0; lr = lr }

-- `code` is the byte at an address, `descriptor` what a pointer to a struct tfm_sfn_req_s points to.
module _ (p : Platform) (sfns : Partitions) (code : ℕ → ℕ) (descriptor : ℕ → Option SfnReq) where
  -- ((uint8_t *)svc_args[6])[-2]
  unfoldable pub svc_number : SvcArgs → ℕ
  svc_number a = code (sub32 a.return_address 2) % 256

  unfoldable pub svc_dispatch : ℕ → SvcArgs → ℕ → Action SvcEnd
  svc_dispatch n a lr =
      if n == svc_sfn_request
      then (do
        r0 ← partition_request_svc_handler p sfns lr (descriptor a.r0)
        pure (ended tfm_success r0 lr))
      else if n == svc_sfn_return
      then (do r ← partition_return_handler p lr; pure (ended r.0 a.r0 r.1))
      else if n == svc_validate_secure_caller
      then (do r0 ← validate_secure_caller_handler; pure (ended tfm_success r0 lr))
      else if n == svc_memory_check
      then (do
        r0 ← memory_permission_check_handler p a.r0 a.r1 a.r2
        pure (ended tfm_success r0 lr))
      else if n == svc_set_share_area
      then (do r0 ← set_buffer_area_handler p a.r0; pure (ended tfm_success r0 lr))
      else if n == svc_print
      then pure (ended tfm_success a.r0 lr)
      else pure (ended tfm_error_generic a.r0 lr)

  unfoldable pub svc_handler_main : SvcArgs → ℕ → Action SvcEnd
  svc_handler_main a lr =
      if on_secure_stack lr
      then svc_dispatch (svc_number a) a lr
      else pure (ended tfm_error_generic a.r0 lr)

  -- The descriptor is `d`, at the address that the SVC finds in r0; its result comes back there.
  unfoldable pub partition_request : SfnReq → SvcArgs → ℕ → Action ℕ
  partition_request d a lr =
      if not (p.tfm_lvl == 1) && d.exc_num == exc_num_thread_mode
      then (do e ← svc_handler_main a lr; pure e.r0)
      else sfn_request_function p sfns (some d)
