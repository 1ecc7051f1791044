-- ===== src/Manager/Bounds.antt =====
-- What a write is checked against before the object system sees it.
use tfm_demo.Prelude.{
  ℕ, ◌+◌, ◌<◌, ◌≤◌, ◌≡◌, ◌⊎◌, refl, ap, arith, inl, inr, Bool-cases, true, Option, none, some, word,
}
use tfm_demo.Sst.Utils.{SstErr, check_contained_in}
use tfm_demo.Sst.Policy.{AssetPolicy, perm_write}
use tfm_demo.Store.Flash.{Driver}
use tfm_demo.Store.Validate.{succeeded}
use tfm_demo.SecureApi.Handlers.{access_ro}
use tfm_demo.Manager.World.{World, Action, Outcome, done, continue}
use tfm_demo.Manager.Access.{
  Core, Tables, SstBuf, to_sst_buf, sst_buf_size, entry_of, memory_bound_check,
  validate_copy_validate_iovec,
}
use tfm_demo.Manager.Operations.{am_write}
use tfm_demo.Manager.Permission.{IsRefused, IsEntitled, entry_of-IsEntitled}

inside :
    (max offset size : ℕ)
    → offset < word
    → size < word
    → succeeded (check_contained_in 0 max offset size) ≡ true
    → offset + size ≤ max
unfolding check_contained_in
inside max offset size a b h = ground arith

continue-IsRefused {ℓ κ} :
    {A : Type ℓ} {B : Type κ} (o : Outcome A) (f : A → Action B) (w : World)
    → IsRefused o w
    → IsRefused (continue o f) w
continue-IsRefused o f w (e, q) = (e, ap (λ x. continue x f) q)

-- Either nothing happens, or the local copy is what the memory says, and both checks passed.
iovec-cases :
    (core : Core) (src access : ℕ) (w : World)
    → IsRefused (validate_copy_validate_iovec core src access w) w
      ⊎ ((validate_copy_validate_iovec core src access w ≡ done (to_sst_buf w.ram src) w)
          × (memory_bound_check core src sst_buf_size access_ro ≡ true)
          × (memory_bound_check core
                (to_sst_buf w.ram src).address
                (to_sst_buf w.ram src).size
                access
              ≡ true))
unfolding validate_copy_validate_iovec
iovec-cases core src access w =
    elim (Bool-cases (memory_bound_check core src sst_buf_size access_ro)) [
      | inr n ↦ inl (SstErr.asset_not_found, rw n)
      | inl y ↦
          elim (Bool-cases (
            memory_bound_check core (to_sst_buf w.ram src).address (to_sst_buf w.ram src).size
              access)) [
                | inr n ↦ inl (SstErr.asset_not_found, rw (y, n))
                | inl z ↦ inr (rw (y, z), y, z)
              ]
    ]

module _ (d : Driver) (core : Core) (tables : Tables) (app_id asset_uuid src : ℕ) (w : World) where
  -- The vector that the caller passes.
  abbrev vector : SstBuf
  vector = to_sst_buf w.ram src

  -- The caller is entitled to write the asset, the vector and what it names may be read, and the
  -- range lies within the size that the policy gives the asset.
  abbrev pub MayWrite : AssetPolicy → Type 0
  MayWrite e =
      IsEntitled d core tables app_id asset_uuid perm_write e
      × (memory_bound_check core src sst_buf_size access_ro ≡ true)
      × (memory_bound_check core vector.address vector.size access_ro ≡ true)
      × (vector.offset + vector.size ≤ e.max_size)

  for_entry :
      (o : Option AssetPolicy)
      → entry_of core tables app_id asset_uuid perm_write ≡ o
      → IsRefused (am_write d core tables app_id asset_uuid src w) w
        ⊎ ((e : AssetPolicy) × MayWrite e)
  unfolding am_write
  for_entry none q = inl (SstErr.asset_not_found, rw q)
  for_entry (some e) q = elim (iovec-cases core src access_ro w) [
    | inl refused ↦ inl (rw q (continue-IsRefused _ _ w refused))
    | inr passed ↦
        elim (Bool-cases (succeeded (check_contained_in 0 e.max_size vector.offset vector.size))) [
          | inr n ↦ inl (SstErr.param_error, rw (q, passed.0, n))
          | inl y ↦ inr (
            e,
            (
              entry_of-IsEntitled d core tables app_id asset_uuid perm_write e (omega arith) q,
              passed.1,
              passed.2,
              inside e.max_size vector.offset vector.size (omega arith) (omega arith) y,
            ),
          )
        ]
  ]

  -- A write returns an error and leaves memory and storage as they were, unless the caller is entitled
  -- to write the asset, the core lets it have the vector and what the vector names read, and the range
  -- lies within the size that the policy gives the asset, with no wrap-around.
  pub am_write-MayWrite :
      IsRefused (am_write d core tables app_id asset_uuid src w) w
      ⊎ ((e : AssetPolicy) × MayWrite e)
  am_write-MayWrite = for_entry (entry_of core tables app_id asset_uuid perm_write) refl
