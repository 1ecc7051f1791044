-- ===== src/Manager/Serve.antt =====
-- What the storage partition does for a caller with an asset: the seven functions for assets that
-- tfm_sst_veneers.c names. It names two more, for tokens, which Jwt adds in `serve_veneer`.
use tfm_demo.Prelude.{ℕ}
use tfm_demo.Sst.Policy.{perm_read, perm_write}
use tfm_demo.Store.Flash.{Driver}
use tfm_demo.Manager.World.{Action}
use tfm_demo.Manager.Access.{Core, Tables}
use tfm_demo.Manager.Operations.{
  all_perms, am_get_info, am_get_attributes, am_set_attributes, am_create, am_read, am_write,
  am_delete,
}

-- A call of a veneer for an asset, with the address that it passes besides the application, the asset and the
-- token.
pub data Request : Type 0 where
  get_info get_attributes set_attributes read write : ℕ → Request
  create delete : Request

module _ (d : Driver) (core : Core) (tables : Tables) (app_id asset_uuid : ℕ) where
  -- The function that the veneer has the core call.
  unfoldable pub serve : Request → Action (Unit {0})
  serve (get_info info) = am_get_info d core tables app_id asset_uuid info
  serve (get_attributes attrs) = am_get_attributes d core tables app_id asset_uuid attrs
  serve (set_attributes attrs) = am_set_attributes d core tables app_id asset_uuid attrs
  serve (read src) = am_read d core tables app_id asset_uuid src
  serve (write src) = am_write d core tables app_id asset_uuid src
  serve create = am_create d core tables app_id asset_uuid
  serve delete = am_delete d core tables app_id asset_uuid

-- The permissions of which a request needs one.
abbrev pub needed : Request → ℕ
needed (get_info info) = all_perms
needed (get_attributes attrs) = all_perms
needed (set_attributes attrs) = all_perms
needed (read src) = perm_read
needed (write src) = perm_write
needed create = perm_write
needed delete = perm_write
