-- ===== src/SecureApi/Interrupts.antt =====
-- Requests come back with interrupts enabled.
use tfm_demo.Prelude.{
  ℕ, ◌≡◌, ◌≢◌, ◌∙◌, refl, inl, inr, Option, none, some, Bool, false, not, ◌&&◌, ◌==◌, arith,
  if◌then◌else◌, Bool-cases,
}
use tfm_demo.Machine.{Machine, Post, Post-bind, Post-weaken, Post-any, Action, when, pure, ◌>>=◌}
use tfm_demo.Machine.Platform.{Platform}
use tfm_demo.Spm.Types.{invalid_partition_idx}
use tfm_demo.Spm.Db.{get_running_partition_idx}
use tfm_demo.SecureApi.Request.{
  SfnReq, tfm_success, tfm_secure_unlock_failed, Args, exc_num_thread_mode,
}
use tfm_demo.SecureApi.Lock.{
  push_lock, pop_lock, leave_partition, return_sandbox, restore_context, close_call, sandboxed,
}
use tfm_demo.SecureApi.View.{mark_at}
use tfm_demo.SecureApi.Reads.{get_flags-bind, get_runtime_data-bind}
use tfm_demo.SecureApi.Sfn.{
  Partitions, check_sfn_req_integrity, check_sfn_req_rules, request_admitted, request_checked,
  sfn_request_function, configure_secure_exception, call_sfn, unlock_or_halt,
}

abbrev pub masked : Machine → Bool
masked m = m.cpu.irq_disabled

-- If the action comes back, the interrupt mask is as before.
abbrev KeepsMask {ℓ} : {A : Type ℓ} → Action A → Machine → Type 0
KeepsMask a m = Post (a m) (λ _ m'. masked m' ≡ masked m)

module _ (p : Platform) (m : Machine) where
  return_sandbox-KeepsMask :
      (b : Bool) (current flags target target_flags : ℕ)
      → KeepsMask (when b (return_sandbox p current flags target target_flags)) m
  unfolding return_sandbox
  return_sandbox-KeepsMask b current flags target target_flags = ground arith

  restore_context-KeepsMask :
      (current flags : ℕ) (lr : Option ℕ) → KeepsMask (restore_context p current flags lr) m
  unfolding restore_context
  restore_context-KeepsMask current flags lr = ground arith

close_call-KeepsMask : (m : Machine) (current target : ℕ) → KeepsMask (close_call current target) m
unfolding close_call
close_call-KeepsMask m current target = ground arith

module _ (p : Platform) where
  leave_partition-KeepsMask :
      (m : Machine) (current target : ℕ) (lr : Option ℕ)
      → KeepsMask (leave_partition p current target lr) m
  unfolding leave_partition
  leave_partition-KeepsMask m current target lr = get_flags-bind target m _ (
      get_flags-bind current m _ (
        Post-bind
          (when (sandboxed p)
            (return_sandbox p current (mark_at m current).flags target (mark_at m target).flags) _)
          _
          (return_sandbox-KeepsMask p _ (sandboxed p) current (mark_at m current).flags target
            (mark_at m target).flags)
          λ _ m2 s.
            Post-bind (restore_context p current (mark_at m target).flags lr m2) _
              (restore_context-KeepsMask p m2 current (mark_at m target).flags lr)
              λ lr' m3 r.
                Post-bind (close_call current target m3) _ (close_call-KeepsMask m3 current target)
                  λ _ m4 c. record { holds = c ∙ r ∙ s }))

  pub pop_lock-KeepsMask : (m : Machine) (lr : Option ℕ) → KeepsMask (pop_lock p lr) m
  unfolding pop_lock get_running_partition_idx
  pop_lock-KeepsMask m lr =
      elim (Bool-cases (m.db.running_partition_idx == invalid_partition_idx)) [
        | inl e ↦ rw e (record { holds = refl })
        | inr e ↦ rw e (get_runtime_data-bind m.db.running_partition_idx m _ λ _. called _)
      ]
    where
      called :
          (target : ℕ)
          → Post
              ((if target == invalid_partition_idx
                  then pure (tfm_secure_unlock_failed, lr)
                  else leave_partition p m.db.running_partition_idx target lr)
                m)
              (λ _ m'. masked m' ≡ masked m)
      called target = elim (Bool-cases (target == invalid_partition_idx)) [
        | inl e ↦ rw e (record { holds = refl })
        | inr e ↦ rw e (leave_partition-KeepsMask m m.db.running_partition_idx target lr)
      ]

abbrev Unmasked : {A : Type 0} → A → Machine → Type 0
Unmasked _ m = masked m ≡ false

-- Secure functions that are entered with interrupts enabled return with interrupts enabled.
pub record LeavesEnabled (s : Partitions) : Type 0 where
  pub call :
      (f : Option ℕ) (a : Args) (m : Machine) → masked m ≡ false → Post (s.call f a m) Unmasked
  pub exc_return : (m : Machine) → masked m ≡ false → Post (s.exc_return m) Unmasked

-- The machine after `__enable_irq`.
abbrev enabled : Machine → Machine
enabled m = record m { cpu = record m.cpu { irq_disabled = false } }

module _ (p : Platform) (s : Partitions) (l : LeavesEnabled s) where
  unlock-Unmasked :
      (m : Machine) (ret : ℕ) (lr : Option ℕ)
      → masked m ≡ false
      → Post ((unlock_or_halt p lr >>= λ _. pure ret) m) Unmasked
  unfolding unlock_or_halt
  unlock-Unmasked m ret lr h =
      Post-bind (unlock_or_halt p lr m) _
        (Post-bind (pop_lock p lr m) _ (pop_lock-KeepsMask p m lr) λ r m1 k. ground (arith, k, h))
        λ _ m1 k. record { holds = k }

  call_sfn-Unmasked :
      (d : SfnReq) (m : Machine) → masked m ≡ false → Post (call_sfn p s d m) Unmasked
  unfolding call_sfn
  call_sfn-Unmasked d m h =
      elim (Bool-cases
        (p.tfm_lvl == 1 && (d.exc_num == exc_num_thread_mode && not m.secure_api_init))) [
          | inl e ↦ rw e (
              Post-bind (s.call d.sfn d.args m) _ (l.call d.sfn d.args m h)
                λ ret m1 k. unlock-Unmasked m1 ret none k)
          | inr e ↦ rw e (l.exc_return m h)
        ]

  request_admitted-Unmasked : (d : SfnReq) (m : Machine) → Post (request_admitted p s d m) Unmasked
  unfolding request_admitted
  request_admitted-Unmasked d m = Post-bind (push_lock p d _ m) _ (Post-any _) λ res m1 _.
      elim (Bool-cases (not (res == tfm_success))) [
        | inl e ↦ rw e (record { holds = refl })
        | inr e ↦ rw e (
            Post-bind (when d.ns_caller configure_secure_exception m1) _ (Post-any _) λ _ m2 _.
              Post-bind (call_sfn p s d (enabled m2)) _ (call_sfn-Unmasked d (enabled m2) refl)
                λ ret m3 k. ground (arith, k))
      ]

  request_checked-Unmasked : (d : SfnReq) (m : Machine) → Post (request_checked p s d m) Unmasked
  unfolding request_checked
  request_checked-Unmasked d m =
      elim (Bool-cases (not (check_sfn_req_rules d m.secure_lock == tfm_success))) [
        | inl e ↦ rw e (record { holds = refl })
        | inr e ↦ rw e (request_admitted-Unmasked d _)
      ]

  -- If secure functions leave interrupts enabled, every request that passes the integrity check
  -- and comes back does so with interrupts enabled, whatever the mask before and whether it is refused, fails to
  -- take the lock, or runs; a request that fails that check returns with the mask as it was.
  pub sfn_request_function-Unmasked :
      (d : Option SfnReq) (m : Machine)
      → Post (sfn_request_function p s d m) (λ _ m'.
        (check_sfn_req_integrity d ≡ tfm_success → masked m' ≡ false)
        × (check_sfn_req_integrity d ≢ tfm_success → m' ≡ m))
  unfolding sfn_request_function check_sfn_req_integrity
  sfn_request_function-Unmasked none m = record {
    holds = ((λ h. absurd (omega arith)), (λ _. refl));
  }
  sfn_request_function-Unmasked (some d) m =
      elim (Bool-cases (not (check_sfn_req_integrity (some d) == tfm_success))) [
        | inl e ↦ rw e (ground (arith, e))
        | inr e ↦ rw e (
            Post-weaken (request_checked p s d m) (request_checked-Unmasked d m)
              λ _ m' h. ((λ _. h), (λ bad. absurd (bad (ground (arith, e))))))
      ]
