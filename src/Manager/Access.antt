-- ===== src/Manager/Access.antt =====
-- The checks of sst_asset_management.c and sst_utils.c on a caller: its permission, and the memory
-- that it names.
use tfm_demo.Prelude.{ℕ, ◌+◌, Bool, ◌==◌, Option, none, some, List}
use tfm_demo.AuditLog.Buffer.{Bytes}
use tfm_demo.Sst.Utils.{SstErr}
use tfm_demo.Sst.Policy.{AssetPolicy, AssetPerm, get_db_entry}
use tfm_demo.Store.Meta.{u32_at}
use tfm_demo.SecureApi.Request.{tfm_success}
use tfm_demo.SecureApi.Handlers.{access_ro}
use tfm_demo.Manager.World.{Action, fail, gets, pure, require, ◌>>=◌, ◌>>◌}

-- What the core answers a running service: tfm_core_memory_permission_check of an address, a size and
-- an access, and tfm_core_validate_secure_caller.
pub record Core : Type 0 where
  pub memory_permission_check : ℕ → ℕ → ℕ → ℕ
  pub validate_secure_caller : ℕ

-- The tables `asset_perms` and `asset_perms_modes`
pub record Tables : Type 0 where
  pub perms : List AssetPolicy
  pub modes : List AssetPerm

-- struct tfm_sst_buf_t
pub record SstBuf : Type 0 where
  pub address : ℕ
  pub size : ℕ
  pub offset : ℕ

abbrev pub sst_buf_size : ℕ
sst_buf_size = 12

abbrev pub to_sst_buf : Bytes → ℕ → SstBuf
to_sst_buf ram src = record {
  address = u32_at ram src;
  size = u32_at ram (src + 4);
  offset = u32_at ram (src + 8);
}

-- The rest of an operation on an asset with an entry; without one, return
-- PSA_SST_ERR_ASSET_NOT_FOUND;
abbrev pub with_entry {ℓ} : {A : Type ℓ} → Option AssetPolicy → (AssetPolicy → Action A) → Action A
with_entry none rest = fail SstErr.asset_not_found
with_entry (some db_entry) rest = rest db_entry

module _ (core : Core) where
  abbrev pub is_secure : Bool
  is_secure = core.validate_secure_caller == tfm_success

  unfoldable pub entry_of : Tables → ℕ → ℕ → ℕ → Option AssetPolicy
  entry_of tables app_id uuid request_type =
      get_db_entry tables.perms tables.modes is_secure app_id uuid request_type

  abbrev pub memory_bound_check : ℕ → ℕ → ℕ → Bool
  memory_bound_check addr size access = core.memory_permission_check addr size access == tfm_success

  -- The local copy, or whether there is none; each caller returns
  -- PSA_SST_ERR_ASSET_NOT_FOUND then.
  unfoldable pub validate_copy_validate_iovec : ℕ → ℕ → Action SstBuf
  validate_copy_validate_iovec src access = do
    require (memory_bound_check src sst_buf_size access_ro) SstErr.asset_not_found
    dest ← gets λ w. to_sst_buf w.ram src
    require (memory_bound_check dest.address dest.size access) SstErr.asset_not_found
    pure dest
