-- ===== src/Manager/Permission.antt =====
-- Who may have an operation carried out.
use tfm_demo.Prelude.{
  ℕ, ◌<◌, ◌≡◌, ◌≢◌, ◌⊎◌, refl, ◌∙◌, sym, subst, arith, inl, inr, Bool, Bool-cases, true, false,
  Option, none, some,
}
use native.Mathlib.Decide.{ℕ_discrete}
use tfm_demo.Sst.Utils.{SstErr}
use tfm_demo.Sst.Policy.{AssetPolicy, s_app_id, perm_reference, perm_read, get_db_entry, shares_bit}
use tfm_demo.Sst.PolicyLaws.{
  Listed, Permits, get_db_entry-non_secure, get_db_entry-delegated, get_db_entry-own,
  lookup_db_entry-Listed,
}
use tfm_demo.Store.Flash.{Driver}
use tfm_demo.Manager.World.{World, Outcome, failed, Action, continue, require}
use tfm_demo.Manager.Access.{Core, Tables, is_secure, entry_of, with_entry, memory_bound_check}
use tfm_demo.Store.Objects.{asset_attr_size}
use tfm_demo.SecureApi.Handlers.{access_ro, access_rw}
use tfm_demo.Manager.Operations.{
  asset_info_size, am_get_info, am_get_attributes, am_set_attributes, am_create, am_read, am_write,
  am_delete,
}
use tfm_demo.Manager.Serve.{
  Request, get_info, get_attributes, set_attributes, read, write, create, delete, serve, needed,
}

-- The operation returns an error, and memory and storage are as they were.
abbrev pub IsRefused {ℓ} : {A : Type ℓ} → Outcome A → World → Type ℓ
IsRefused o w = (e : SstErr) × (o ≡ failed e w)

module _ {ℓ κ} {A : Type ℓ} {P : AssetPolicy → Type κ} where
  with_entry-IsRefused :
      (o : Option AssetPolicy) (rest : AssetPolicy → Action A) (w : World)
      → ((e : AssetPolicy) → o ≡ some e → P e)
      → IsRefused (with_entry o rest w) w ⊎ ((e : AssetPolicy) × P e)
  with_entry-IsRefused none rest w h = inl (SstErr.asset_not_found, refl)
  with_entry-IsRefused (some e) rest w h = inr (e, h e refl)

  require-IsRefused :
      (ok : Bool) (err : SstErr) (rest : Unit {0} → Action A) (w : World)
      → IsRefused (rest tt w) w ⊎ ((e : AssetPolicy) × P e)
      → IsRefused (continue (require ok err w) rest) w ⊎ ((e : AssetPolicy) × P e)
  require-IsRefused true err rest w h = h
  require-IsRefused false err rest w h = inl (err, refl)

module _ (d : Driver) (core : Core) (tables : Tables) (app_id asset_uuid : ℕ) where
  -- Either nothing happens, or the caller got the entry of the asset.
  serve-IsRefused {κ} :
      {P : AssetPolicy → Type κ} (r : Request) (w : World)
      → ((e : AssetPolicy) → entry_of core tables app_id asset_uuid (needed r) ≡ some e → P e)
      → IsRefused (serve d core tables app_id asset_uuid r w) w ⊎ ((e : AssetPolicy) × P e)
  unfolding serve am_get_info am_get_attributes am_set_attributes am_create am_read am_write
      am_delete
  serve-IsRefused (get_info info) w h =
      require-IsRefused (memory_bound_check core info asset_info_size access_rw) SstErr.param_error
        _ w (with_entry-IsRefused _ _ w h)
  serve-IsRefused (get_attributes attrs) w h =
      require-IsRefused (memory_bound_check core attrs asset_attr_size access_rw) SstErr.param_error
        _ w (with_entry-IsRefused _ _ w h)
  serve-IsRefused (set_attributes attrs) w h =
      require-IsRefused (memory_bound_check core attrs asset_attr_size access_ro) SstErr.param_error
        _ w (with_entry-IsRefused _ _ w h)
  serve-IsRefused (read src) w h = with_entry-IsRefused _ _ w h
  serve-IsRefused (write src) w h = with_entry-IsRefused _ _ w h
  serve-IsRefused create w h = with_entry-IsRefused _ _ w h
  serve-IsRefused delete w h = with_entry-IsRefused _ _ w h

  needed_lt : (r : Request) → needed r < 8
  needed_lt (get_info info) = omega arith
  needed_lt (get_attributes attrs) = omega arith
  needed_lt (set_attributes attrs) = omega arith
  needed_lt (read src) = omega arith
  needed_lt (write src) = omega arith
  needed_lt create = omega arith
  needed_lt delete = omega arith

  -- Why a caller may have the entry of an asset: its application has one of the permissions asked
  -- for; or it is secure and acts for itself; or it is secure, reads for another application, and
  -- that one may reference the asset.
  pub data IsEntitled (request : ℕ) (e : AssetPolicy) : Type 0 where
    by_right :
        is_secure core ≡ false
        → app_id ≢ s_app_id
        → Listed tables.perms asset_uuid e
        → Permits tables.modes e.perms_modes_start_idx e.perms_count app_id request
        → IsEntitled request e
    as_itself :
        is_secure core ≡ true
        → app_id ≡ s_app_id
        → Listed tables.perms asset_uuid e
        → IsEntitled request e
    by_reference :
        is_secure core ≡ true
        → app_id ≢ s_app_id
        → shares_bit request perm_read ≡ true
        → Listed tables.perms asset_uuid e
        → Permits tables.modes e.perms_modes_start_idx e.perms_count app_id perm_reference
        → IsEntitled request e

  pub entry_of-IsEntitled :
      (request : ℕ) (e : AssetPolicy)
      → request < 8
      → entry_of core tables app_id asset_uuid request ≡ some e
      → IsEntitled request e
  unfolding entry_of
  entry_of-IsEntitled request e lt h = elim (Bool-cases (is_secure core)) [
    | inr n ↦
        let r =
          get_db_entry-non_secure tables.perms tables.modes app_id asset_uuid request e lt
            (known false n) in
        by_right n r.0 r.1 r.2
    | inl y ↦ elim (ℕ_discrete app_id s_app_id) [
      | yes same ↦ as_itself y same (
          lookup_db_entry-Listed tables.perms asset_uuid e (
            sym (get_db_entry-own tables.perms tables.modes asset_uuid request)
            ∙ subst
                (λ (a : ℕ).
                  get_db_entry tables.perms tables.modes true a asset_uuid request ≡ some e)
                same (known true y)))
      | no other ↦
          let r =
            get_db_entry-delegated tables.perms tables.modes app_id asset_uuid request e other
              (known true y) in
          by_reference y other r.0 r.1 r.2
    ]
  ]
    where
      known :
          (b : Bool)
          → is_secure core ≡ b
          → get_db_entry tables.perms tables.modes b app_id asset_uuid request ≡ some e
      known b q =
          subst
            (λ (x : Bool).
              get_db_entry tables.perms tables.modes x app_id asset_uuid request ≡ some e)
            q h

  -- A request for an asset, by one of the seven operations, returns an error and leaves memory
  -- and storage as they were, unless the asset is listed and the caller is entitled: it is not
  -- secure, and the application, not being the secure one, has one of the permissions that the
  -- operation needs; or it is secure and acts for itself; or it is secure, reading is among what
  -- the operation asks for, and the application may reference the asset.
  pub serve-IsEntitled :
      (r : Request) (w : World)
      → IsRefused (serve d core tables app_id asset_uuid r w) w
        ⊎ ((e : AssetPolicy) × IsEntitled (needed r) e)
  serve-IsEntitled r w = serve-IsRefused r w λ e h. entry_of-IsEntitled (needed r) e (needed_lt r) h
