-- ===== src/Tests/Calls.antt =====
-- Calls between partitions on the sample machines.
use tfm_demo.Prelude.{◌≡◌, ◌≢◌, ◌⊎◌, refl, some, arith, [], ◌∷◌}
use tfm_demo.Machine.{Machine, Post, Returns, stopped, undefined}
use tfm_demo.Spm.Types.{PartState, invalid_partition_idx}
use tfm_demo.Spm.Db.{get_partition_idx, find_partition}
use tfm_demo.SecureApi.Request.{SfnReq, tfm_success}
use tfm_demo.SecureApi.Lock.{push_lock, pop_lock}
use tfm_demo.SecureApi.View.{mark_at}
use tfm_demo.SecureApi.CallStack.{IsCallStack, push_lock-IsCallStack}
use tfm_demo.SecureApi.Push.{Pushed, push_lock-Pushed}
use tfm_demo.SecureApi.Return.{pop_lock-IsCallStack}
use tfm_demo.SecureApi.Progress.{push_lock-Returns}
use tfm_demo.SecureApi.ReturnProgress.{pop_lock-Returns}
use tfm_demo.SecureApi.Unknown.{push_lock-unknown_partition}
use tfm_demo.Tests.Sample.{level1, ns_running, in_call, request}

ns_running-IsCallStack : IsCallStack ns_running []
ns_running-IsCallStack = record {
  in_db = omega arith;
  runs = refl;
  links = refl;
  quiet = λ j n. ground (arith, n);
  lock = refl;
}

in_call-IsCallStack : IsCallStack in_call (0 ∷ [])
in_call-IsCallStack = record {
  in_db = omega arith;
  runs = refl;
  links = (refl, refl, omega arith, ((λ e. absurd (omega (arith, e))), tt), refl);
  quiet = λ j n. ground (arith, n);
  lock = omega arith;
}

abbrev call : SfnReq
call = request 256 11

push_lock-IsCallStack_example : Post (push_lock level1 call 9 ns_running) (λ s m'.
    ((s ≡ tfm_success)
      × (m'.db.running_partition_idx ≡ get_partition_idx ns_running.db 256)
      × IsCallStack m' (0 ∷ []))
    ⊎ ((s ≢ tfm_success) × (m' ≡ ns_running)))
push_lock-IsCallStack_example =
    push_lock-IsCallStack level1 call 9 ns_running [] ns_running-IsCallStack

pop_lock-IsCallStack_example :
    Post
      (pop_lock level1 (some 9) in_call)
      (λ r m'. (r.0 ≡ tfm_success) × (m'.db.running_partition_idx ≡ 0) × IsCallStack m' [])
pop_lock-IsCallStack_example = pop_lock-IsCallStack level1 (some 9) in_call 0 [] in_call-IsCallStack

push_lock-Pushed_example : Post (push_lock level1 call 9 ns_running) (Pushed call 9 ns_running)
push_lock-Pushed_example = push_lock-Pushed level1 call 9 ns_running

found : get_partition_idx ns_running.db 256 ≡ 2
unfolding get_partition_idx find_partition
found = refl

absent : get_partition_idx ns_running.db 999 ≡ invalid_partition_idx
unfolding get_partition_idx find_partition
absent = refl

idle_callee : (mark_at ns_running (get_partition_idx ns_running.db 256)).state ≡ PartState.idle
unfolding get_partition_idx find_partition
idle_callee = refl

push_lock-Returns_example : Returns (push_lock level1 call 9 ns_running) (λ s _. s ≡ tfm_success)
push_lock-Returns_example =
    push_lock-Returns level1 (λ _. refl) call 9 ns_running (omega arith) (omega (arith, found))
      (λ h. absurd (omega (arith, h))) refl idle_callee

push_lock-unknown_partition_example :
    push_lock level1 (request 999 11) 9 ns_running ≡ stopped undefined
push_lock-unknown_partition_example =
    push_lock-unknown_partition level1 (request 999 11) 9 ns_running (omega arith) refl absent

pop_lock-Returns_example : Returns (pop_lock level1 (some 9) in_call) (λ r _. r.0 ≡ tfm_success)
pop_lock-Returns_example =
    pop_lock-Returns level1 (λ _. refl) 9 in_call (omega arith) (omega arith)
      (λ h. absurd (omega (arith, h)))
