-- ===== src/SecureApi/Exit.antt =====
-- What leaving a partition changes: the effect of `leave_partition` on the view, and on the
-- processor's stack pointers and the return address.
use tfm_demo.Prelude.{
  ℕ, Bool, true, not, ◌&&◌, ◌||◌, ◌≡◌, ◌==◌, if◌then◌else◌, arith, sub32, ap, ◌∙◌, Option, some,
  bit0, refl,
}
use tfm_demo.Machine.{Machine, Post, Post-bind, Post-weaken, when}
use tfm_demo.Machine.Platform.{Platform}
use tfm_demo.Spm.Types.{PartState, invalid_partition_idx}
use tfm_demo.Spm.Db.{set_state}
use tfm_demo.SecureApi.Request.{tfm_success}
use tfm_demo.SecureApi.Lock.{
  return_sandbox, restore_context, close_call, leave_partition, write_lr, release, lvl1, sandboxed,
}
use tfm_demo.SecureApi.Reads.{get_flags-bind}
use tfm_demo.SecureApi.View.{Mark, mark_at, Globals, globals, Same}

-- Whether leaving switches back to the caller's stack: always above level 1; at level 1 to
-- non-secure callers, and during initialisation.
abbrev pub switches_back : Platform → ℕ → Bool → Bool
switches_back p target_flags init = not (lvl1 p && not (not (bit0 target_flags) || init))

pub record Restored (p : Platform) (current flags : ℕ) (m m' : Machine) (lr' : Option ℕ)
    : Type 0 where
  pub same : Same m m'
  pub psp : switches_back p flags m.secure_api_init ≡ true → m'.cpu.psp ≡ (mark_at m current).psp
  pub psplim :
      switches_back p flags m.secure_api_init ≡ true → m'.cpu.psplim ≡ (mark_at m current).psplim
  pub lr : switches_back p flags m.secure_api_init ≡ true → lr' ≡ some (mark_at m current).lr

module _ (p : Platform) (m : Machine) where
  return_sandbox-Same :
      (b : Bool) (current flags target target_flags : ℕ)
      → Post (when b (return_sandbox p current flags target target_flags) m) (λ _ m'. Same m m')
  unfolding return_sandbox
  return_sandbox-Same b current flags target target_flags = ground arith

  restore_context-Restored :
      (current flags : ℕ) (lr : Option ℕ)
      → Post (restore_context p current flags lr m) (λ lr' m'. Restored p current flags m m' lr')
  unfolding restore_context write_lr
  restore_context-Restored current flags lr = ground arith

-- The mark of a partition that is idle again.
abbrev pub released : Mark → Mark
released k = record k {
  state = PartState.idle;
  caller = invalid_partition_idx;
  psp = 0;
  psplim = 0;
  lr = 0;
}

abbrev released_mark : Machine → ℕ → ℕ → Mark
released_mark m current j = if j == current then released (mark_at m current) else mark_at m j

-- The mark of partition `j` once `current` is left for `target`.
abbrev pub left_mark : Machine → ℕ → ℕ → ℕ → Mark
left_mark m current target j =
    if j == target
    then record (released_mark m current target) { state = PartState.running }
    else released_mark m current j

release-view :
    (m : Machine) (current : ℕ)
    → Post (release current m) (λ _ m'.
      ((j : ℕ) → mark_at m' j ≡ released_mark m current j)
      × (globals m' ≡ globals m)
      × (m'.cpu ≡ m.cpu))
unfolding release
release-view m current = ground arith

run-view :
    (m : Machine) (target : ℕ)
    → Post (set_state target PartState.running m) (λ _ m'.
      ((j : ℕ)
        → mark_at m' j ≡ (
            if j == target
            then record (mark_at m target) { state = PartState.running }
            else mark_at m j))
      × (globals m' ≡ record (globals m) { running = target })
      × (m'.cpu ≡ m.cpu))
unfolding set_state
run-view m target = ground arith

close_call-view :
    (m : Machine) (current target : ℕ)
    → Post (close_call current target m) (λ _ m'.
      ((j : ℕ) → mark_at m' j ≡ left_mark m current target j)
      × (globals m' ≡ record (globals m) { running = target })
      × (m'.cpu ≡ m.cpu))
unfolding close_call
close_call-view m current target =
    Post-bind (release current m) _ (release-view m current) λ _ m1 r.
      Post-weaken (set_state target PartState.running m1) (run-view m1 target) λ _ m2 s. (
        λ j. ground (arith, r.0 j, r.0 target, s.0 j),
        s.1 ∙ ap (λ (x : Globals). record x { running = target }) r.1,
        s.2 ∙ r.2,
      )

pub record Left (p : Platform) (current target : ℕ) (m m' : Machine) (lr' : Option ℕ) : Type 0 where
  pub marks : (j : ℕ) → mark_at m' j ≡ left_mark m current target j
  pub rest : globals m' ≡ record (globals m) { running = target; lock = sub32 m.secure_lock 1 }
  pub psp :
      switches_back p (mark_at m target).flags m.secure_api_init ≡ true
      → m'.cpu.psp ≡ (mark_at m current).psp
  pub psplim :
      switches_back p (mark_at m target).flags m.secure_api_init ≡ true
      → m'.cpu.psplim ≡ (mark_at m current).psplim
  pub lr :
      switches_back p (mark_at m target).flags m.secure_api_init ≡ true
      → lr' ≡ some (mark_at m current).lr

-- The machine after `tfm_secure_lock--`.
abbrev unlocked : Machine → Machine
unlocked m = record m { secure_lock = sub32 m.secure_lock 1 }

module _ (p : Platform) where
  assemble :
      {current target : ℕ} {m m2 m3 m4 : Machine} {lr : Option ℕ}
      → Same (unlocked m) m2
      → Restored p current (mark_at m target).flags m2 m3 lr
      → ((j : ℕ) → mark_at m4 j ≡ left_mark m3 current target j)
        × (globals m4 ≡ record (globals m3) { running = target })
        × (m4.cpu ≡ m3.cpu)
      → Left p current target m m4 lr
  assemble {current} {target} {m} {m2} {m3} {m4} s r c = record {
    marks = λ j. ground (
      arith,
      s.marks j,
      s.marks target,
      s.marks current,
      r.same.marks j,
      r.same.marks target,
      r.same.marks current,
      c.0 j,
    );
    rest = c.1 ∙ ap (λ (x : Globals). record x { running = target }) (r.same.rest ∙ s.rest);
    psp = λ h. ground (arith, s.rest, s.marks current, r.psp, c.2);
    psplim = λ h. ground (arith, s.rest, s.marks current, r.psplim, c.2);
    lr = λ h. ground (arith, s.rest, s.marks current, r.lr);
  }

  pub leave_partition-Left :
      (current target : ℕ) (lr : Option ℕ) (m : Machine)
      → Post
          (leave_partition p current target lr m)
          (λ r m'. (r.0 ≡ tfm_success) × Left p current target m m' r.1)
  unfolding leave_partition
  leave_partition-Left current target lr m = get_flags-bind target m _ (
      get_flags-bind current m _ (
        Post-bind
          (when (sandboxed p)
            (return_sandbox p current (mark_at m current).flags target (mark_at m target).flags)
            (unlocked m))
          _
          (return_sandbox-Same p (unlocked m) (sandboxed p) current (mark_at m current).flags target
            (mark_at m target).flags)
          λ _ m2 s.
            Post-bind (restore_context p current (mark_at m target).flags lr m2) _
              (restore_context-Restored p m2 current (mark_at m target).flags lr)
              λ lr' m3 r.
                Post-bind (close_call current target m3) _ (close_call-view m3 current target)
                  λ _ m4 c. record { holds = (refl, assemble s r c) }))
