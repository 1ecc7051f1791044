-- ===== src/Store/Write.antt =====
-- sst_core_object_write
use tfm_demo.Prelude.{ℕ, ◌==◌, ltb, not, if◌then◌else◌, add32}
use tfm_demo.AuditLog.Buffer.{Bytes, copy_from}
use tfm_demo.Sst.Utils.{SstErr}
use tfm_demo.Store.Layout.{flash_program_unit, aligned_max_object_size, logical_dblock0}
use tfm_demo.Store.Effects.{Storage, Action, fail, gets, modify, as_error, when, ◌>>=◌, ◌>>◌}
use tfm_demo.Store.Flash.{Driver}
use tfm_demo.Store.Meta.{AssetMeta, BlockMetadata}
use tfm_demo.Store.Validate.{get_aligned_flash_bytes}
use tfm_demo.Store.Tables.{
  get_object_idx, read_object_meta, read_block_metadata, cur_data_scratch, set_data_scratch,
}
use tfm_demo.Store.Scratch.{
  block_object_read_raw, dblock_update_scratch, mblock_update_scratch_object_meta,
  mblock_update_scratch_block_meta, mblock_copy_remaining_object_meta,
  mblock_copy_remaining_block_meta, mblock_migrate_data_to_scratch,
}
use tfm_demo.Store.Commit.{meta_update_finalize}

abbrev pub on_plain_text : (Bytes → Bytes) → Storage → Storage
on_plain_text f s = record s { buf_plain_text = f s.buf_plain_text }

-- sst_utils_memset(sst_buf_plain_text, 0, SST_ALIGNED_MAX_OBJECT_SIZE)
abbrev pub cleaned : Bytes → Bytes
cleaned b k = if ltb k aligned_max_object_size then 0 else b k

abbrev pub grown : AssetMeta → ℕ → AssetMeta
grown meta end = record meta { cur_size = if ltb meta.cur_size end then end else meta.cur_size }

module _ (d : Driver) where
  -- The object's new contents in the plain-text buffer.
  unfoldable pub compose_object : AssetMeta → Bytes → ℕ → ℕ → Action (Unit {0})
  compose_object object_meta content offset size = do
    modify (on_plain_text cleaned)
    when (ltb 0 object_meta.cur_size) (do
      old ← block_object_read_raw d object_meta 0 object_meta.cur_size
      modify (on_plain_text (copy_from 0 old 0 object_meta.cur_size)))
    modify (on_plain_text (copy_from offset content 0 size))

  -- The scratch data block becomes the object's block, and the tables follow.
  unfoldable pub stage_object : ℕ → AssetMeta → BlockMetadata → Action (Unit {0})
  stage_object object_index object_meta block_meta = do
    buf ← gets λ s. s.buf_plain_text
    dblock_update_scratch d object_meta.lblock block_meta buf object_meta.data_index
        (get_aligned_flash_bytes flash_program_unit object_meta.cur_size)
    scratch_block ← gets (cur_data_scratch object_meta.lblock)
    modify (set_data_scratch block_meta.phys_id object_meta.lblock)
    mblock_update_scratch_block_meta d object_meta.lblock
        (record block_meta { phys_id = scratch_block })
    mblock_update_scratch_object_meta d object_index object_meta
    mblock_copy_remaining_block_meta d object_meta.lblock
    mblock_copy_remaining_object_meta d object_index
    when (not (object_meta.lblock == logical_dblock0)) (mblock_migrate_data_to_scratch d)

  -- All that comes before the metadata header is written.
  unfoldable pub stage_write : ℕ → Bytes → ℕ → ℕ → Action (Unit {0})
  stage_write object_uuid content offset size = do
    object_index ← as_error SstErr.asset_not_found (get_object_idx d object_uuid)
    object_meta ← as_error SstErr.asset_not_found (read_object_meta d object_index)
    block_meta ← as_error SstErr.system_error (read_block_metadata d object_meta.lblock)
    when (ltb object_meta.cur_size offset) (fail SstErr.param_error)
    compose_object object_meta content offset size
    as_error SstErr.system_error
        (stage_object object_index (grown object_meta (add32 offset size)) block_meta)

  unfoldable pub object_write : ℕ → Bytes → ℕ → ℕ → Action (Unit {0})
  object_write object_uuid content offset size = do
    stage_write object_uuid content offset size
    meta_update_finalize d
