-- ===== src/Manager/Memory.antt =====
-- Which memory of its callers the storage partition writes.
use tfm_demo.Prelude.{
  ℕ, ◌+◌, ◌<◌, ◌≤◌, ◌≡◌, ◌⊎◌, refl, ap, ◌∙◌, arith, inl, inr, Bool, true, false, ◌==◌, ◌&&◌, Option,
  none, some, word,
}
use tfm_demo.AuditLog.Buffer.{Bytes}
use tfm_demo.AuditLog.Copy.{copy_from-outside}
use tfm_demo.Sst.Utils.{SstErr, check_contained_in}
use tfm_demo.Sst.Policy.{AssetPolicy, perm_read, perm_write}
use tfm_demo.Store.Effects
use tfm_demo.Store.Flash.{Driver}
use tfm_demo.Store.Objects.{
  asset_attr_size, system_get_info, system_get_attributes, system_set_attributes, system_read,
  system_write, system_create, system_delete,
}
use tfm_demo.Store.Validate.{succeeded}
use tfm_demo.SecureApi.Request.{tfm_success}
use tfm_demo.SecureApi.Handlers.{access_ro, access_rw}
use tfm_demo.Manager.World.{
  World, Outcome, done, failed, power_lost, Action, pure, continue, require, in_world, on_storage,
}
use tfm_demo.Manager.Access.{
  sst_buf_size, Core, Tables, to_sst_buf, with_entry, entry_of, memory_bound_check,
  validate_copy_validate_iovec,
}
use tfm_demo.Manager.Operations.{
  all_perms, asset_info_size, put, of_info, u64_at, type_code, am_get_info, am_get_attributes,
  am_set_attributes, am_create, am_read, am_write, am_delete,
}
use tfm_demo.Manager.Serve.{
  Request, get_info, get_attributes, set_attributes, read, write, create, delete, serve,
}

-- The world that an operation leaves, however it ends.
abbrev pub world_of {ℓ} : {A : Type ℓ} → Outcome A → World
world_of (done a w) = w
world_of (failed e w) = w
world_of (power_lost w) = w

-- A condition on an outcome: on the answer and the world if it returns, on the world otherwise.
abbrev pub AtEnd {ℓ} : {A : Type ℓ} → Outcome A → (A → World → Type 0) → (World → Type 0) → Type 0
AtEnd (done a w) P R = P a w
AtEnd (failed e w) P R = R w
AtEnd (power_lost w) P R = R w

pub record Ends {ℓ} {A : Type ℓ} (o : Outcome A) (P : A → World → Type 0) (R : World → Type 0)
    : Type 0 where
  pub holds : AtEnd o P R

module _ {ℓ κ} {A : Type ℓ} {B : Type κ} {R : World → Type 0} where
  Ends-bind :
      {P : A → World → Type 0} {Q : B → World → Type 0} (o : Outcome A) (f : A → Action B)
      → Ends o P R
      → ((a : A) (w : World) → P a w → Ends (f a w) Q R)
      → Ends (continue o f) Q R
  Ends-bind (done a w) f h k = k a w h.holds
  Ends-bind (failed e w) f h k = record { holds = h.holds }
  Ends-bind (power_lost w) f h k = record { holds = h.holds }

module _ {ℓ} {A : Type ℓ} {R : World → Type 0} where
  pub Ends-weaken :
      {P Q : A → World → Type 0} (o : Outcome A)
      → Ends o P R
      → ((a : A) (w : World) → P a w → Q a w)
      → Ends o Q R
  Ends-weaken (done a w) h k = record { holds = k a w h.holds }
  Ends-weaken (failed e w) h k = record { holds = h.holds }
  Ends-weaken (power_lost w) h k = record { holds = h.holds }

-- The memory is as it was.
abbrev pub Same : World → World → Type 0
Same before w = w.ram ≡ before.ram

in_world-Same {ℓ} :
    {A : Type ℓ} (ram : Bytes) (before : World) (o : Effects.Outcome A)
    → ram ≡ before.ram
    → Ends (in_world ram o) (λ _. Same before) (Same before)
in_world-Same ram before (Effects.done a s) e = record { holds = e }
in_world-Same ram before (Effects.failed x s) e = record { holds = e }
in_world-Same ram before (Effects.power_lost s) e = record { holds = e }

Ends-require :
    (before w : World) (ok : Bool) (err : SstErr)
    → Same before w
    → Ends (require ok err w) (λ _ w'. Same before w' × (ok ≡ true)) (Same before)
Ends-require before w true err e = record { holds = (e, refl) }
Ends-require before w false err e = record { holds = e }

module _ (core : Core) where
  -- At most one range is written, and it is one that the core lets the caller have written.
  abbrev pub IsConfined : World → World → Type 0
  IsConfined before w =
      Same before w
      ⊎ ((addr size : ℕ) × (addr < word)
          × (size < word)
          × (core.memory_permission_check addr size access_rw ≡ tfm_success)
          × ((x : ℕ) → (x < addr) ⊎ (addr + size ≤ x) → w.ram x ≡ before.ram x))

  -- What an operation leaves of the memory.
  abbrev Confines : World → Outcome (Unit {0}) → Type 0
  Confines before o = Ends o (λ _. IsConfined before) (Same before)

  is_success :
      (addr size access : ℕ)
      → memory_bound_check core addr size access ≡ true
      → core.memory_permission_check addr size access ≡ tfm_success
  is_success addr size access h = ground arith

  put-Confines :
      (before w : World) (addr : ℕ) (src : Bytes) (size : ℕ)
      → addr < word
      → size < word
      → Same before w
      → memory_bound_check core addr size access_rw ≡ true
      → Confines before (put addr src size w)
  put-Confines before w addr src size a s e ok = record {
    holds = inr (
      addr,
      size,
      a,
      s,
      is_success addr size access_rw ok,
      λ x h. copy_from-outside addr 0 size x src w.ram (outside h) ∙ ap (λ (b : Bytes). b x) e,
    );
  }
    where
      outside : {x : ℕ} → (x < addr) ⊎ (addr + size ≤ x) → (x < addr + 0) ⊎ (addr + (0 + size) ≤ x)
      outside (inl a) = inl (omega arith)
      outside (inr a) = inr (omega arith)

  with_entry-Confines :
      (before w : World) (o : Option AssetPolicy) (rest : AssetPolicy → Action (Unit {0}))
      → Same before w
      → ((e : AssetPolicy) → Confines before (rest e w))
      → Confines before (with_entry o rest w)
  with_entry-Confines before w none rest e h = record { holds = e }
  with_entry-Confines before w (some x) rest e h = h x

  storage-Confines :
      (before w : World) (o : Effects.Outcome (Unit {0}))
      → Same before w
      → Confines before (in_world w.ram o)
  storage-Confines before w (Effects.done a s) e = record { holds = inl e }
  storage-Confines before w (Effects.failed x s) e = record { holds = e }
  storage-Confines before w (Effects.power_lost s) e = record { holds = e }

  iovec-Same :
      (before : World) (src access : ℕ)
      → Ends
          (validate_copy_validate_iovec core src access before)
          (λ b w.
            Same before w
            × (b.address < word)
            × (b.size < word)
            × (memory_bound_check core b.address b.size access ≡ true))
          (Same before)
  unfolding validate_copy_validate_iovec
  iovec-Same before src access =
      Ends-bind _ _
        (Ends-require before before (memory_bound_check core src sst_buf_size access_ro) _ refl)
        λ _ w1 h1.
          let b = to_sst_buf w1.ram src in
          Ends-bind _ (λ _. pure b)
            (Ends-require before w1 (memory_bound_check core b.address b.size access) _ h1.0)
            λ _ w2 h2. record { holds = (h2.0, omega arith, omega arith, h2.1) }

-- The address that a request passes.
abbrev pub address_of : Request → ℕ
address_of (get_info info) = info
address_of (get_attributes attrs) = attrs
address_of (set_attributes attrs) = attrs
address_of (read src) = src
address_of (write src) = src
address_of create = 0
address_of delete = 0

module _ (d : Driver) (core : Core) (tables : Tables) (app_id asset_uuid : ℕ) where
  -- Whatever is asked for, with an address of 32 bits, an operation that does not return leaves the memory as it was, and one
  -- that returns has written at most one range, which the core's check admits for writing.
  pub serve-IsConfined :
      (r : Request) (w : World)
      → address_of r < word
      → Ends (serve d core tables app_id asset_uuid r w) (λ _. IsConfined core w) (Same w)
  unfolding serve am_get_info am_get_attributes am_set_attributes am_create am_read am_write
      am_delete
  serve-IsConfined (get_info info) w fits =
      Ends-bind _ _
        (Ends-require w w (memory_bound_check core info asset_info_size access_rw) _ refl)
        λ _ w1 h1.
          with_entry-Confines core w w1 (entry_of core tables app_id asset_uuid all_perms) _ h1.0
            λ e.
              Ends-bind _ _ (in_world-Same w1.ram w (system_get_info d asset_uuid w1.storage) h1.0)
                λ i w2 h2.
                  put-Confines core w w2 info (of_info i) asset_info_size fits (omega arith) h2 h1.1
  serve-IsConfined (get_attributes attrs) w fits =
      Ends-bind _ _
        (Ends-require w w (memory_bound_check core attrs asset_attr_size access_rw) _ refl)
        λ _ w1 h1.
          with_entry-Confines core w w1 (entry_of core tables app_id asset_uuid all_perms) _ h1.0
            λ e.
              Ends-bind _ _
                (in_world-Same w1.ram w (system_get_attributes d asset_uuid w1.storage) h1.0)
                λ i w2 h2. put-Confines core w w2 attrs i asset_attr_size fits (omega arith) h2 h1.1
  serve-IsConfined (set_attributes attrs) w fits =
      Ends-bind _ _
        (Ends-require w w (memory_bound_check core attrs asset_attr_size access_ro) _ refl)
        λ _ w1 h1.
          with_entry-Confines core w w1 (entry_of core tables app_id asset_uuid all_perms) _ h1.0
            λ e.
              Ends-bind _
                (λ _. on_storage (system_set_attributes d asset_uuid λ k. w1.ram (attrs + k)))
                (Ends-require w w1 (u64_at w1.ram attrs == 0 && u64_at w1.ram (attrs + 8) == 0)
                  SstErr.param_error h1.0)
                λ _ w2 h2.
                  storage-Confines core w w2
                    (system_set_attributes d asset_uuid (λ k. w1.ram (attrs + k)) w2.storage) h2.0
  serve-IsConfined (read src) w fits =
      with_entry-Confines core w w (entry_of core tables app_id asset_uuid perm_read) _ refl λ e.
        Ends-bind _ _ (iovec-Same core w src access_rw) λ b w1 h1.
          Ends-bind _ _
            (in_world-Same w1.ram w (system_read d asset_uuid b.offset b.size w1.storage) h1.0)
            λ i w2 h2. put-Confines core w w2 b.address i b.size h1.1 h1.2 h2 h1.3
  serve-IsConfined (write src) w fits =
      with_entry-Confines core w w (entry_of core tables app_id asset_uuid perm_write) _ refl λ e.
        Ends-bind _ _ (iovec-Same core w src access_ro) λ b w1 h1.
          Ends-bind _
            (λ _ w3.
              on_storage (system_write d asset_uuid (λ k. w3.ram (b.address + k)) b.offset b.size)
                w3)
            (Ends-require w w1 (succeeded (check_contained_in 0 e.max_size b.offset b.size))
              SstErr.param_error h1.0)
            λ _ w2 h2.
              storage-Confines core w w2
                (system_write d asset_uuid (λ k. w2.ram (b.address + k)) b.offset b.size w2.storage)
                h2.0
  serve-IsConfined create w fits =
      with_entry-Confines core w w (entry_of core tables app_id asset_uuid perm_write) _ refl λ e.
        storage-Confines core w w
          (system_create d asset_uuid (type_code e.kind) e.max_size w.storage) refl
  serve-IsConfined delete w fits =
      with_entry-Confines core w w (entry_of core tables app_id asset_uuid perm_write) _ refl
        λ e. storage-Confines core w w (system_delete d asset_uuid w.storage) refl
