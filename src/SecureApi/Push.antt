-- ===== src/SecureApi/Push.antt =====
-- `tfm_push_lock` enters the callee or changes nothing.
use tfm_demo.Prelude.{
  ℕ, ◌<◌, ◌≡◌, ◌≢◌, ◌⊎◌, inl, inr, refl, Bool, true, false, not, ◌==◌, if◌then◌else◌, arith, bit0,
  Bool-cases, ltb→lt,
}
use tfm_demo.Machine.{Machine, Post, Post-bind, Post-weaken, pure, when, set_npriv, ◌>>◌}
use tfm_demo.Machine.Platform.{Platform}
use tfm_demo.Spm.Types.{PartState, max_partitions, invalid_partition_idx}
use tfm_demo.Spm.Db.{get_partition_idx, get_running_partition_idx}
use tfm_demo.SecureApi.Request.{SfnReq, tfm_success, tfm_secure_lock_failed}
use tfm_demo.SecureApi.Lock.{
  push_lock, push_lock_to, enter_partition, admit_call, is_active, differ,
}
use tfm_demo.SecureApi.View.{mark_at, Same}
use tfm_demo.SecureApi.Reads.{get_flags-bind, get_partition_id-bind, get_runtime_data-bind}
use tfm_demo.SecureApi.Entry.{Entered, enter_partition-Entered}

-- The result of a push from `m`: success, and the callee entered, which was not active; or an
-- error, and nothing changed.
abbrev pub Pushed : SfnReq → ℕ → Machine → ℕ → Machine → Type 0
Pushed d lr m s m' =
    let idx = get_partition_idx m.db d.sp_id in
    ((s ≡ tfm_success)
      × (idx < max_partitions)
      × (is_active (mark_at m idx).state ≡ false)
      × Entered m.db.running_partition_idx idx m.cpu.psp lr m m')
    ⊎ ((s ≢ tfm_success) × (m' ≡ m))

npriv-Same :
    (b : Bool) (m : Machine)
    → Post
        (when b (set_npriv true) m)
        (λ _ m'. Same m m' × (m'.cpu.psp ≡ m.cpu.psp) × (m'.cpu.psplim ≡ m.cpu.psplim))
npriv-Same b m = ground arith

Entered-Same :
    {caller idx psp lr : ℕ} {m m1 m' : Machine}
    → Same m m1
    → m1.cpu.psplim ≡ m.cpu.psplim
    → Entered caller idx psp lr m1 m'
    → Entered caller idx psp lr m m'
Entered-Same {caller} {idx} s c e = record {
  marks = λ j. ground (arith, s.marks j, s.marks idx, s.marks caller, e.marks j);
  rest = ground (arith, s.rest, e.rest);
}

module _ (p : Platform) (d : SfnReq) (lr : ℕ) (m : Machine) where
  abbrev callee : ℕ
  callee = get_partition_idx m.db d.sp_id

  -- Entered after the privilege was dropped, or kept.
  enter_unprivileged :
      (b : Bool) (flags : ℕ)
      → callee < max_partitions
      → is_active (mark_at m callee).state ≡ false
      → Post
          ((when b (set_npriv true)
              >> enter_partition p d lr m.db.running_partition_idx flags callee m.cpu.psp)
            m)
          (Pushed d lr m)
  enter_unprivileged b flags lt quiet =
      Post-bind (when b (set_npriv true) m) _ (npriv-Same b m) λ _ m1 s.
        Post-weaken (enter_partition p d lr m.db.running_partition_idx flags callee m.cpu.psp m1)
          (enter_partition-Entered p d lr m.db.running_partition_idx flags callee m.cpu.psp m1)
          λ st m2 e. inl (e.0, lt, quiet, Entered-Same s.0 s.2 e.1)

  admit_call-Pushed :
      (flags callee_flags : ℕ) (core_init : Bool) (state : PartState)
      → callee < max_partitions
      → (mark_at m callee).state ≡ state
      → Post
          (admit_call p d lr m.db.running_partition_idx flags callee m.cpu.psp state callee_flags
            core_init m)
          (Pushed d lr m)
  unfolding admit_call
  admit_call-Pushed flags callee_flags true PartState.uninit lt e =
      enter_unprivileged _ flags lt (rw e)
  admit_call-Pushed flags callee_flags false PartState.uninit lt e = record {
    holds = inr (omega arith, refl);
  }
  admit_call-Pushed flags callee_flags true PartState.idle lt e =
      enter_unprivileged false flags lt (rw e)
  admit_call-Pushed flags callee_flags false PartState.idle lt e =
      enter_unprivileged false flags lt (rw e)
  admit_call-Pushed flags callee_flags true _ lt e = record { holds = inr (omega arith, refl) }
  admit_call-Pushed flags callee_flags false _ lt e = record { holds = inr (omega arith, refl) }

  push_lock_to-Pushed :
      (flags : ℕ) → Post (push_lock_to p d lr m.db.running_partition_idx flags m) (Pushed d lr m)
  unfolding push_lock_to
  push_lock_to-Pushed flags = get_runtime_data-bind callee m _ λ lt. get_flags-bind callee m _ (
      get_partition_id-bind m.db.running_partition_idx m _
        (admit_call-Pushed flags _ _ _ (ltb→lt _ _ lt) refl))

  -- If it comes back, either `tfm_push_lock` enters the callee, whose index is in the database and which was neither
  -- running, blocked nor suspended; or it returns an error and the machine is unchanged.
  pub push_lock-Pushed : Post (push_lock p d lr m) (Pushed d lr m)
  unfolding push_lock get_running_partition_idx
  push_lock-Pushed = elim (Bool-cases (m.db.running_partition_idx == invalid_partition_idx)) [
    | inl e ↦ rw e (record { holds = inr (omega arith, refl) })
    | inr e ↦ rw e (get_flags-bind m.db.running_partition_idx m _ (checked _))
  ]
    where
      checked :
          (flags : ℕ)
          → Post
              ((if differ (bit0 flags) (not d.ns_caller)
                  then pure tfm_secure_lock_failed
                  else push_lock_to p d lr m.db.running_partition_idx flags)
                m)
              (Pushed d lr m)
      checked flags = elim (Bool-cases (differ (bit0 flags) (not d.ns_caller))) [
        | inl e ↦ rw e (record { holds = inr (omega arith, refl) })
        | inr e ↦ rw e (push_lock_to-Pushed flags)
      ]
