-- ===== src/Manager/Operations.antt =====
-- The operations sst_am_* of sst_asset_management.c.
use tfm_demo.Prelude.{ℕ, ◌+◌, ◌-◌, ◌*◌, ◌^◌, ◌==◌, ◌&&◌, ltb, if◌then◌else◌, Option, none, some}
use tfm_demo.AuditLog.Buffer.{Bytes, copy_from, byte_of}
use tfm_demo.Sst.Utils.{SstErr, check_contained_in}
use tfm_demo.Sst.Policy.{AssetType, perm_read, perm_write}
use tfm_demo.Store.Flash.{Driver}
use tfm_demo.Store.Meta.{u32_at}
use tfm_demo.Store.Validate.{succeeded}
use tfm_demo.Store.Objects.{
  AssetInfo, asset_attr_size, system_prepare, system_wipe_all, system_read, system_create,
  system_write, system_get_info, system_get_attributes, system_set_attributes, system_delete,
}
use tfm_demo.SecureApi.Handlers.{access_ro, access_rw}
use tfm_demo.Manager.World.{
  Action, gets, pure, attempt, on_storage, write_ram, require, ◌>>=◌, ◌>>◌,
}
use tfm_demo.Manager.Access.{
  Core, Tables, with_entry, entry_of, memory_bound_check, validate_copy_validate_iovec,
}

-- PSA_SST_ASSET_INFO_SIZE
abbrev pub asset_info_size : ℕ
asset_info_size = 12

-- all_perms
abbrev pub all_perms : ℕ
all_perms = 7

-- PSA_SST_ASSET_KEY_HMAC and the others, of psa_sst_asset_defs.h
abbrev pub type_code : AssetType → ℕ
type_code AssetType.key_aes = 0x04000001
type_code AssetType.key_hmac = 0x02000001
type_code AssetType.key_rsa_public = 0x06010000
type_code AssetType.key_rsa_private = 0x07010000
type_code AssetType.cert_x_509 = 0x08000001

-- The bytes of a struct psa_sst_asset_info_t
unfoldable pub of_info : AssetInfo → Bytes
of_info info k =
    if ltb k 4
    then byte_of info.type k
    else if ltb k 8
    then byte_of info.size_current (k - 4)
    else byte_of info.size_max (k - 8)

-- *(uint64_t *)&b[i]
abbrev pub u64_at : Bytes → ℕ → ℕ
u64_at b i = u32_at b i + 2 ^ 32 * u32_at b (i + 4)

-- sst_utils_memcpy(addr, src, size);
abbrev pub put : ℕ → Bytes → ℕ → Action (Unit {0})
put addr src size = write_ram (copy_from addr src 0 size)

module _ (d : Driver) where
  -- SST_RAM_FS: a storage that cannot be prepared is wiped, and prepared again.
  abbrev pub prepare_again : Option (Unit {0}) → Action (Unit {0})
  prepare_again (some u) = pure u
  prepare_again none = do
    _ ← attempt (on_storage (system_wipe_all d))
    on_storage (system_prepare d)

  -- `validate_policy_db` always succeeds.
  unfoldable pub am_prepare : Action (Unit {0})
  am_prepare = do first ← attempt (on_storage (system_prepare d)); prepare_again first

  module _ (core : Core) (tables : Tables) where
    unfoldable pub am_get_info : ℕ → ℕ → ℕ → Action (Unit {0})
    am_get_info app_id asset_uuid info = do
      require (memory_bound_check core info asset_info_size access_rw) SstErr.param_error
      with_entry (entry_of core tables app_id asset_uuid all_perms) λ _. do
        tmp_info ← on_storage (system_get_info d asset_uuid)
        put info (of_info tmp_info) asset_info_size

    unfoldable pub am_get_attributes : ℕ → ℕ → ℕ → Action (Unit {0})
    am_get_attributes app_id asset_uuid attrs = do
      require (memory_bound_check core attrs asset_attr_size access_rw) SstErr.param_error
      with_entry (entry_of core tables app_id asset_uuid all_perms) λ _. do
        tmp_attrs ← on_storage (system_get_attributes d asset_uuid)
        put attrs tmp_attrs asset_attr_size

    unfoldable pub am_set_attributes : ℕ → ℕ → ℕ → Action (Unit {0})
    am_set_attributes app_id asset_uuid attrs = do
      require (memory_bound_check core attrs asset_attr_size access_ro) SstErr.param_error
      with_entry (entry_of core tables app_id asset_uuid all_perms) λ _. do
        ram ← gets λ w. w.ram
        require (u64_at ram attrs == 0 && u64_at ram (attrs + 8) == 0) SstErr.param_error
        on_storage (system_set_attributes d asset_uuid λ k. ram (attrs + k))

    unfoldable pub am_create : ℕ → ℕ → Action (Unit {0})
    am_create app_id asset_uuid =
        with_entry (entry_of core tables app_id asset_uuid perm_write) λ db_entry.
          on_storage (system_create d asset_uuid (type_code db_entry.kind) db_entry.max_size)

    unfoldable pub am_read : ℕ → ℕ → ℕ → Action (Unit {0})
    am_read app_id asset_uuid src =
        with_entry (entry_of core tables app_id asset_uuid perm_read) λ _. do
          local_data ← validate_copy_validate_iovec core src access_rw
          content ← on_storage (system_read d asset_uuid local_data.offset local_data.size)
          put local_data.address content local_data.size

    unfoldable pub am_write : ℕ → ℕ → ℕ → Action (Unit {0})
    am_write app_id asset_uuid src =
        with_entry (entry_of core tables app_id asset_uuid perm_write) λ db_entry. do
          local_data ← validate_copy_validate_iovec core src access_ro
          require
              (succeeded (check_contained_in 0 db_entry.max_size local_data.offset local_data.size))
              SstErr.param_error
          ram ← gets λ w. w.ram
          on_storage (
              system_write d asset_uuid (λ k. ram (local_data.address + k)) local_data.offset
                local_data.size)

    unfoldable pub am_delete : ℕ → ℕ → Action (Unit {0})
    am_delete app_id asset_uuid =
        with_entry (entry_of core tables app_id asset_uuid perm_write)
          λ _. on_storage (system_delete d asset_uuid)
