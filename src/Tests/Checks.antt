-- ===== src/Tests/Checks.antt =====
-- The checks of requests and of memory, the exception frame, and the database, on sample values.
use tfm_demo.Prelude.{
  ℕ, ◌+◌, ◌-◌, ◌≤◌, ◌<◌, ◌≡◌, ◌≢◌, ◌⊎◌, ◌↔◌, refl, some, true, false, arith, List, [], ◌∷◌,
}
use tfm_demo.Machine.{Post, pure, stopped, undefined}
use tfm_demo.Spm.Types.{PartState, invalid_partition_idx}
use tfm_demo.Spm.Db.{get_partition_idx}
use tfm_demo.Spm.Init.{ListEntry, declare_partition, add_init_func, run_init, zero_memory}
use tfm_demo.Spm.Lookup.{Finds, get_partition_idx-Finds}
use tfm_demo.Spm.InitLaws.{run_init-failure}
use tfm_demo.SecureApi.Request.{tfm_success, exc_num_thread_mode, exc_num_svcall}
use tfm_demo.SecureApi.Frame.{Stack, prepare_partition_ctx}
use tfm_demo.SecureApi.FrameLayout.{IsFrame, prepare_partition_ctx-IsFrame}
use tfm_demo.SecureApi.Handlers.{memory_permission_check_handler}
use tfm_demo.SecureApi.MemoryCheck.{Admitted, memory_permission_check-Admitted}
use tfm_demo.SecureApi.Sfn.{
  Partitions, check_sfn_req_integrity, check_sfn_req_rules, sfn_request_function,
}
use tfm_demo.SecureApi.RequestLaws.{check_sfn_req_rules_iff}
use tfm_demo.SecureApi.Interrupts.{masked, LeavesEnabled, sfn_request_function-Unmasked}
use tfm_demo.SecureApi.Handlers.{validate_secure_caller_handler, set_buffer_area_handler}
use tfm_demo.SecureApi.HandlerLaws.{
  share_of, IsWanted, validate_secure_caller_handler_iff, set_buffer_area_handler-Same,
}
use tfm_demo.SecureApi.View.{mark_at, Same}
use tfm_demo.Prelude.{bit0}
use tfm_demo.Tests.Sample.{level1, at_level, ns_running, in_call, request, partition}

memory_permission_check-Admitted_example :
    Post (memory_permission_check_handler (at_level 2) 805331000 16 1 in_call) (λ res m'.
      (m' ≡ in_call) × (res ≡ tfm_success → Admitted (at_level 2) 805331000 16 1 in_call))
memory_permission_check-Admitted_example =
    memory_permission_check-Admitted (at_level 2) 805331000 16 1 in_call
      (λ h. absurd (omega (arith, h))) (omega arith) (omega arith) (omega arith) (omega arith)

-- Every secure function returns 0 at once.
abbrev quiet : Partitions
quiet = record { call = λ f a. pure 0; exc_return = pure 0 }

quiet-LeavesEnabled : LeavesEnabled quiet
quiet-LeavesEnabled = record {
  call = λ f a m h. record { holds = h };
  exc_return = λ m h. record { holds = h };
}

sfn_request_function-Unmasked_example :
    Post (sfn_request_function level1 quiet (some (request 256 11)) ns_running) (λ _ m'.
      (check_sfn_req_integrity (some (request 256 11)) ≡ tfm_success → masked m' ≡ false)
      × (check_sfn_req_integrity (some (request 256 11)) ≢ tfm_success → m' ≡ ns_running))
sfn_request_function-Unmasked_example =
    sfn_request_function-Unmasked level1 quiet quiet-LeavesEnabled (some (request 256 11))
      ns_running

abbrev no_lock : ℕ
no_lock = 0

check_sfn_req_rules_iff_example : (check_sfn_req_rules (request 256 11) no_lock ≡ tfm_success) ↔ (
    ((true ≡ false) × (11 ≡ exc_num_thread_mode))
    ⊎ ((true ≡ true) × (11 ≡ exc_num_svcall) × (no_lock ≡ 0)))
check_sfn_req_rules_iff_example = check_sfn_req_rules_iff (request 256 11) no_lock

sound_request : check_sfn_req_integrity (some (request 256 11)) ≡ tfm_success
unfolding check_sfn_req_integrity
sound_request = refl

-- The secure domain is locked.
locked : check_sfn_req_rules (request 256 11) 1 ≢ tfm_success
unfolding check_sfn_req_rules
locked h = absurd (omega (arith, h))

abbrev stack : Stack
stack = record { dst = 805316608; words = λ _. 7 }

prepare_partition_ctx-IsFrame_example :
    ((prepare_partition_ctx level1 (request 256 11) stack).dst ≡ 805316608 - 32)
    × IsFrame level1
        (request 256 11)
        (805316608 - 32)
        (prepare_partition_ctx level1 (request 256 11) stack).words
    × ((x : ℕ)
        → (x + 32 < 805316608) ⊎ (805316608 ≤ x)
        → (prepare_partition_ctx level1 (request 256 11) stack).words x ≡ 7)
prepare_partition_ctx-IsFrame_example =
    prepare_partition_ctx-IsFrame level1 (request 256 11) stack (omega arith) (omega arith)

get_partition_idx-Finds_example :
    Finds ns_running.db.partitions 256 0 4 (get_partition_idx ns_running.db 256)
get_partition_idx-Finds_example =
    get_partition_idx-Finds ns_running.db 256 (λ h. absurd (omega (arith, h)))

abbrev entries : List ListEntry
entries = declare_partition 256 3 zero_memory ∷ (add_init_func 256 4097 ∷ [])

run_init-failure_example :
    run_init level1
      (λ d. pure 5)
      2
      (partition 256 3 PartState.uninit invalid_partition_idx)
      (some 4097)
      ns_running
    ≡ stopped undefined
run_init-failure_example =
    run_init-failure level1 (λ d. pure 5) 2 4097 5
      (partition 256 3 PartState.uninit invalid_partition_idx) ns_running ns_running refl
      (λ h. absurd (omega (arith, h))) (omega arith)

validate_secure_caller_handler_iff_example :
    Post (validate_secure_caller_handler in_call) (λ res m'.
      (m' ≡ in_call)
      × ((res ≡ tfm_success) ↔ (
          (bit0 (mark_at in_call 2).flags ≡ true)
          × (bit0 (mark_at in_call (mark_at in_call 2).caller).flags ≡ true))))
validate_secure_caller_handler_iff_example = validate_secure_caller_handler_iff in_call

set_buffer_area_handler-Same_example : Post (set_buffer_area_handler level1 4 in_call) (λ res m'.
    Same in_call m'
    × (res ≡ tfm_success
        → (bit0 (mark_at in_call 2).flags ≡ true) × IsWanted in_call 4 (share_of m' 2)))
set_buffer_area_handler-Same_example = set_buffer_area_handler-Same level1 4 in_call
