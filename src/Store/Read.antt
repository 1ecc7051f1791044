-- ===== src/Store/Read.antt =====
-- sst_core_object_get_info and sst_core_object_read
use tfm_demo.Prelude.{ℕ, ◌==◌, not}
use tfm_demo.AuditLog.Buffer.{Bytes}
use tfm_demo.Sst.Utils.{SstErr, check_contained_in}
use tfm_demo.Store.Effects.{Action, pure, fail, as_error, when, ◌>>=◌, ◌>>◌}
use tfm_demo.Store.Flash.{Driver}
use tfm_demo.Store.Meta.{AssetMeta}
use tfm_demo.Store.Validate.{succeeded}
use tfm_demo.Store.Tables.{get_object_idx, read_object_meta}
use tfm_demo.Store.Scratch.{block_object_read_raw}

-- struct sst_core_obj_info_t
pub record ObjInfo : Type 0 where
  pub size_current : ℕ
  pub size_max : ℕ

abbrev info_of : AssetMeta → ObjInfo
info_of meta = record { size_current = meta.cur_size; size_max = meta.max_size }

module _ (d : Driver) where
  unfoldable pub object_get_info : ℕ → Action ObjInfo
  object_get_info object_uuid = do
    object_index ← as_error SstErr.asset_not_found (get_object_idx d object_uuid)
    meta ← read_object_meta d object_index
    when (not (object_uuid == meta.unique_id)) (fail SstErr.asset_not_found)
    pure (info_of meta)

  unfoldable pub object_read : ℕ → ℕ → ℕ → Action Bytes
  object_read object_uuid offset size = do
    object_index ← as_error SstErr.asset_not_found (get_object_idx d object_uuid)
    meta ← as_error SstErr.system_error (read_object_meta d object_index)
    when (not (object_uuid == meta.unique_id)) (fail SstErr.asset_not_found)
    when (not (succeeded (check_contained_in 0 meta.cur_size offset size)))
        (fail SstErr.param_error)
    as_error SstErr.system_error (block_object_read_raw d meta offset size)
