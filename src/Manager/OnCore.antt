-- ===== src/Manager/OnCore.antt =====
-- The storage partition over the handlers of the core that answer its questions.
use tfm_demo.Prelude.{ℕ, ◌+◌, ◌<◌, ◌≤◌, ◌≡◌, ◌≢◌, ◌⊎◌, subst, arith, inl, inr, word}
use tfm_demo.Machine.{Machine, Post, Outcome, done, stopped}
use tfm_demo.Machine.Platform.{Platform}
use tfm_demo.Spm.Types.{max_partitions}
use tfm_demo.Spm.Db.{get_running_partition_idx, get_runtime_data, get_flags}
use tfm_demo.SecureApi.Request.{tfm_success, tfm_error_generic}
use tfm_demo.SecureApi.Handlers.{
  memory_permission_check_handler, validate_secure_caller_handler, access_rw,
}
use tfm_demo.SecureApi.MemoryCheck.{Admitted, memory_permission_check-Admitted}
use tfm_demo.SecureApi.View.{mark_at}
use tfm_demo.Store.Flash.{Driver}
use tfm_demo.Manager.World.{World}
use tfm_demo.Manager.Access.{Core, Tables}
use tfm_demo.Manager.Serve.{Request, serve}
use tfm_demo.Manager.Memory.{Same, Ends, Ends-weaken, IsConfined, address_of, serve-IsConfined}

-- The answers of the core are those of its handlers, on the machine on which the partition runs.
pub record IsCore (p : Platform) (m : Machine) (core : Core) : Type 0 where
  pub checks :
      (ptr size access : ℕ)
      → memory_permission_check_handler p ptr size access m
        ≡ done (core.memory_permission_check ptr size access) m
  pub callers : validate_secure_caller_handler m ≡ done core.validate_secure_caller m

abbrev answer_of : Outcome ℕ → ℕ
answer_of (done n m) = n
answer_of (stopped f) = tfm_error_generic

-- What the handlers answer.
abbrev pub core_of : Platform → Machine → Core
core_of p m = record {
  memory_permission_check =
      λ ptr size access. answer_of (memory_permission_check_handler p ptr size access m);
  validate_secure_caller = answer_of (validate_secure_caller_handler m);
}

-- While the running partition and its caller are entries of the database, the handlers answer.
pub core_of-IsCore :
    (p : Platform) (m : Machine)
    → m.db.running_partition_idx < max_partitions
    → (mark_at m m.db.running_partition_idx).caller < max_partitions
    → IsCore p m (core_of p m)
unfolding memory_permission_check_handler validate_secure_caller_handler get_running_partition_idx
    get_runtime_data get_flags
core_of-IsCore p m running caller = record {
  checks = λ ptr size access. ground arith;
  callers = ground arith;
}

module _ (d : Driver) (p : Platform) (m : Machine) (core : Core) (on : IsCore p m core)
    (tables : Tables) (app_id asset_uuid : ℕ) where
  -- At most one range is written, one that the core admits for writing.
  abbrev pub WritesAdmitted : World → World → Type 0
  WritesAdmitted before w =
      Same before w
      ⊎ ((addr size : ℕ) × Admitted p addr size access_rw m
          × ((x : ℕ) → (x < addr) ⊎ (addr + size ≤ x) → w.ram x ≡ before.ram x))

  admitted :
      (addr size : ℕ)
      → p.tfm_lvl ≢ 1
      → 0 < p.scratch_area_size
      → p.scratch_area + p.scratch_area_size < word
      → addr < word
      → size < word
      → core.memory_permission_check addr size access_rw ≡ tfm_success
      → Admitted p addr size access_rw m
  admitted addr size lvl s1 s2 a n ok =
      (subst
          (λ (o : Outcome ℕ).
            Post o λ res m'. (m' ≡ m) × (res ≡ tfm_success → Admitted p addr size access_rw m))
          (on.checks addr size access_rw)
          (memory_permission_check-Admitted p addr size access_rw m lvl s1 s2 a n)).holds.1
        ok

  -- Above isolation level 1, with a scratch area below the end of the address space and the core's
  -- answers those of its handlers: one of the seven operations on assets with an address of 32 bits
  -- that does not return leaves the callers' memory as it was, and one that returns has written at
  -- most one range, which lies in the scratch area or begins in non-secure data.
  pub serve-WritesAdmitted :
      (r : Request) (w : World)
      → p.tfm_lvl ≢ 1
      → 0 < p.scratch_area_size
      → p.scratch_area + p.scratch_area_size < word
      → address_of r < word
      → Ends (serve d core tables app_id asset_uuid r w) (λ _. WritesAdmitted w) (Same w)
  serve-WritesAdmitted r w lvl s1 s2 fits =
      Ends-weaken _ (serve-IsConfined d core tables app_id asset_uuid r w fits) λ a w'. either w'
    where
      either : (w' : World) → IsConfined core w w' → WritesAdmitted w w'
      either w' (inl same) = inl same
      either w' (inr (addr, size, a, n, ok, kept)) =
          inr (addr, size, admitted addr size lvl s1 s2 a n ok, kept)
