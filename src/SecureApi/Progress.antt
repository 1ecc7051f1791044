-- ===== src/SecureApi/Progress.antt =====
-- A call that may be made is made.
use tfm_demo.Prelude.{ℕ, ◌<◌, ◌≡◌, ◌≢◌, Bool, not, List, ◌∷◌, arith, bit0, if◌then◌else◌}
use tfm_demo.Machine.{
  Machine, HalCall, sandbox_config, sandbox_deconfig, Post-any, Returns, Returns-bind, when,
}
use tfm_demo.Machine.Platform.{Platform}
use tfm_demo.Spm.Types.{SpmErr, PartState, max_partitions, share_ns_code, share_scratch}
use tfm_demo.Spm.Db.{
  get_partition_idx, set_share, get_running_partition_idx, get_runtime_data, get_flags,
  get_partition_id,
}
use tfm_demo.SecureApi.Request.{SfnReq, tfm_success}
use tfm_demo.SecureApi.Lock.{
  push_lock, push_lock_to, admit_call, enter_partition, select_stack, save_context, swap_sandbox,
  load_frame, switches, hand_over,
}
use tfm_demo.SecureApi.View.{mark_at}
use tfm_demo.SecureApi.Entry.{select_stack-Same, save_context-view}

module _ (p : Platform) (hal_ok : (calls : List HalCall) → p.hal calls ≡ SpmErr.ok) where
  swap_sandbox-Returns :
      (caller idx : ℕ) (m : Machine)
      → caller < max_partitions
      → idx < max_partitions
      → m.db.is_init ≢ 0
      → Returns (swap_sandbox p caller idx m) (λ _ _. Unit)
  unfolding swap_sandbox
  swap_sandbox-Returns caller idx m lt lt' init = ground (
    arith,
    hal_ok (
        sandbox_config (m.db.partitions idx).memory_data (m.db.partitions idx).platform_data
        ∷ sandbox_deconfig (m.db.partitions caller).memory_data
            (m.db.partitions caller).platform_data
        ∷ m.hal_calls),
  )

  select_stack-Returns :
      (caller flags idx psp : ℕ) (m : Machine)
      → caller < max_partitions
      → idx < max_partitions
      → Returns (select_stack p caller flags idx psp m) (λ _ _. Unit)
  unfolding select_stack
  select_stack-Returns caller flags idx psp m lt lt' = ground arith

  set_share-Returns :
      (idx share : ℕ) (m : Machine)
      → idx < max_partitions
      → Returns (set_share p idx share m) (λ _ _. Unit)
  unfolding set_share
  set_share-Returns idx share m lt = ground arith

  load_frame-Returns :
      (d : SfnReq) (b : Bool) (x y : ℕ) (m : Machine)
      → Returns (when b (load_frame p d x y) m) (λ _ _. Unit)
  unfolding load_frame
  load_frame-Returns d b x y m = ground arith

save_context-Returns :
    (caller idx psp lr : ℕ) (m : Machine)
    → idx < max_partitions
    → Returns (save_context caller idx psp lr m) (λ _ _. Unit)
unfolding save_context
save_context-Returns caller idx psp lr m lt = ground arith

hand_over-Returns :
    (caller idx : ℕ) (m : Machine)
    → caller < max_partitions
    → idx < max_partitions
    → Returns (hand_over caller idx m) (λ s _. s ≡ tfm_success)
unfolding hand_over
hand_over-Returns caller idx m lt lt' = ground arith

module _ (p : Platform) (hal_ok : (calls : List HalCall) → p.hal calls ≡ SpmErr.ok) where
  enter_partition-Returns :
      (d : SfnReq) (lr caller flags idx psp : ℕ) (m : Machine)
      → caller < max_partitions
      → idx < max_partitions
      → m.db.is_init ≢ 0
      → Returns (enter_partition p d lr caller flags idx psp m) (λ s _. s ≡ tfm_success)
  unfolding enter_partition
  enter_partition-Returns d lr caller flags idx psp m lt lt' init =
      Returns-bind (select_stack p caller flags idx psp m) _
        (select_stack-Returns p hal_ok caller flags idx psp m lt lt')
        (select_stack-Same p m caller flags idx psp)
        λ st m1 s1.
          Returns-bind (save_context caller idx psp lr m1) _
            (save_context-Returns caller idx psp lr m1 lt') (save_context-view m1 caller idx psp lr)
            λ _ m2 s2.
              Returns-bind (swap_sandbox p caller idx m2) _
                (swap_sandbox-Returns p hal_ok caller idx m2 lt lt'
                  (ground (arith, s1.0.rest, s2.1)))
                (Post-any _)
                λ _ m3 _.
                  Returns-bind
                    (set_share p idx (if d.ns_caller then share_ns_code else share_scratch) m3) _
                    (set_share-Returns p hal_ok idx
                      (if d.ns_caller then share_ns_code else share_scratch) m3 lt')
                    (Post-any _)
                    λ _ m4 _.
                      Returns-bind (when (switches p d m4) (load_frame p d st.0 st.1) m4) _
                        (load_frame-Returns p hal_ok d (switches p d m4) st.0 st.1 m4) (Post-any _)
                        λ _ m5 _. hand_over-Returns caller idx m5 lt lt'

  -- Where the isolation driver reports no error and the database is initialised, a call from the
  -- running partition to a different partition of the database that is idle, by a descriptor that
  -- agrees on whether the caller is secure, is entered: `tfm_push_lock` returns success.
  pub push_lock-Returns :
      (d : SfnReq) (lr : ℕ) (m : Machine)
      → m.db.running_partition_idx < max_partitions
      → get_partition_idx m.db d.sp_id < max_partitions
      → m.db.is_init ≢ 0
      → bit0 (mark_at m m.db.running_partition_idx).flags ≡ not d.ns_caller
      → (mark_at m (get_partition_idx m.db d.sp_id)).state ≡ PartState.idle
      → Returns (push_lock p d lr m) (λ s _. s ≡ tfm_success)
  unfolding push_lock push_lock_to admit_call get_running_partition_idx get_runtime_data get_flags
      get_partition_id
  push_lock-Returns d lr m lt lt' init agree idle = ground (
    arith,
    enter_partition-Returns d lr m.db.running_partition_idx
        (mark_at m m.db.running_partition_idx).flags (get_partition_idx m.db d.sp_id) m.cpu.psp m,
  )
