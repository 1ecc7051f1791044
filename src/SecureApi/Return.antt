-- ===== src/SecureApi/Return.antt =====
-- Leaving the innermost call: `tfm_pop_lock` on a call stack, and after `tfm_push_lock`.
use tfm_demo.Prelude.{
  ℕ, ◌<◌, ◌≡◌, ◌≢◌, true, List, [], ◌∷◌, arith, word, refl, ap, ◌∙◌, sym, subst, Option, some,
}
use native.Mathlib.Decide.{ℕ_discrete}
use tfm_demo.Machine.{Machine, Post, Post-weaken, done}
use tfm_demo.Machine.Platform.{Platform}
use tfm_demo.Spm.Types.{PartState, max_partitions}
use tfm_demo.Spm.Db.{get_running_partition_idx, get_runtime_data}
use tfm_demo.SecureApi.Lock.{pop_lock, leave_partition}
use tfm_demo.SecureApi.Request.{tfm_success, tfm_secure_unlock_failed}
use tfm_demo.SecureApi.View.{Mark, mark_at, Globals, globals}
use tfm_demo.SecureApi.Exit.{Left, leave_partition-Left, switches_back}
use tfm_demo.SecureApi.CallStack.{Links, IsCallStack, Agree-of_NotIn, Links-frame, NotIn-Links}

Left-IsCallStack :
    {target : ℕ} {m m' : Machine} (p : Platform) (rest : List ℕ) {lr' : Option ℕ}
    → IsCallStack m (target ∷ rest)
    → Left p m.db.running_partition_idx target m m' lr'
    → (m'.db.running_partition_idx ≡ target) × IsCallStack m' rest
Left-IsCallStack {target} {m} {m'} p rest c e = (
  run,
  record {
    in_db = rw run c.links.2;
    runs = rw run (ground (arith, e.marks target));
    links =
        subst (λ i. Links (mark_at m') i rest) (sym run)
          (Links-frame k (mark_at m') target rest (ground (arith, e.marks target, c.links.3.0))
            (Agree-of_NotIn k (mark_at m') current target rest (λ j a b. ground (arith, e.marks j))
              c.links.3.1 (NotIn-Links k target rest c.links.4))
            c.links.4);
    quiet = λ j n. elim (ℕ_discrete j current) [
      | yes h ↦ ground (arith, run, e.marks j)
      | no h ↦ ground (arith, run, e.marks j, c.quiet j (h, ((λ x. n.0 (x ∙ sym run)), n.1)))
    ];
    lock = ap (λ (g : Globals). g.lock) e.rest ∙ (rw c.lock (omega arith));
  },
)
  where
    current : ℕ
    current = m.db.running_partition_idx

    k : ℕ → Mark
    k = mark_at m

    run : m'.db.running_partition_idx ≡ target
    run = ap (λ (g : Globals). g.running) e.rest

module _ (p : Platform) (lr : Option ℕ) (m : Machine) where
  -- With a caller, `pop_lock` is `leave_partition`.
  pop_lock-leave :
      {current target : ℕ}
      → m.db.running_partition_idx ≡ current
      → current < max_partitions
      → (mark_at m current).caller ≡ target
      → target < max_partitions
      → pop_lock p lr m ≡ leave_partition p current target lr m
  unfolding pop_lock get_running_partition_idx get_runtime_data
  pop_lock-leave run lt called lt' = ground arith

  -- On the outermost partition `tfm_pop_lock` fails and changes nothing.
  pub pop_lock-outermost :
      IsCallStack m [] → pop_lock p lr m ≡ done (tfm_secure_unlock_failed, lr) m
  unfolding pop_lock get_running_partition_idx get_runtime_data
  pop_lock-outermost c = ground (arith, c.links, c.in_db)

module _ (p : Platform) where
  -- With a caller on the call stack, `tfm_pop_lock` succeeds, if it comes back, and takes the
  -- innermost call off the stack.
  pub pop_lock-IsCallStack :
      (lr : Option ℕ) (m : Machine) (target : ℕ) (rest : List ℕ)
      → IsCallStack m (target ∷ rest)
      → Post (pop_lock p lr m) (λ r m'.
        (r.0 ≡ tfm_success) × (m'.db.running_partition_idx ≡ target) × IsCallStack m' rest)
  pop_lock-IsCallStack lr m target rest c =
      rw (pop_lock-leave p lr m refl c.in_db c.links.0 c.links.2) (
        Post-weaken (leave_partition p m.db.running_partition_idx target lr m)
          (leave_partition-Left p m.db.running_partition_idx target lr m)
          λ r m' h. (h.0, (Left-IsCallStack p rest c h.1).0, (Left-IsCallStack p rest c h.1).1))

-- What a call restores: from `m` before it to `m3` after, through a callee of index `idx` and
-- flags of the caller `flags`.
pub record CallRestored (p : Platform) (idx lr : ℕ) (m m3 : Machine) (lr' : Option ℕ) : Type 0 where
  pub others : (j : ℕ) → j ≢ idx → mark_at m3 j ≡ mark_at m j
  pub callee : (mark_at m3 idx).state ≡ PartState.idle
  pub counters : (m.secure_lock < word) → globals m3 ≡ globals m
  pub psp :
      switches_back p (mark_at m m.db.running_partition_idx).flags m.secure_api_init ≡ true
      → m3.cpu.psp ≡ m.cpu.psp
  pub psplim :
      switches_back p (mark_at m m.db.running_partition_idx).flags m.secure_api_init ≡ true
      → m3.cpu.psplim ≡ m.cpu.psplim
  pub return_address :
      switches_back p (mark_at m m.db.running_partition_idx).flags m.secure_api_init ≡ true
      → lr' ≡ some lr
