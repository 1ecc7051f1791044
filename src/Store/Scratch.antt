-- ===== src/Store/Scratch.antt =====
-- Writing the scratch blocks: sst_core.c.
use tfm_demo.Prelude.{ℕ, ◌+◌, ◌-◌, ◌*◌, ◌%◌, ◌==◌, not, ltb, if◌then◌else◌, word, add32, sub32}
use tfm_demo.AuditLog.Buffer.{Bytes}
use tfm_demo.Sst.Utils.{SstErr}
use tfm_demo.Store.Layout.{
  block_size, header_size, block_metadata_size, assetmeta_size, num_assets, block_meta_offset,
  object_meta_offset, logical_dblock0, block_invalid_id,
}
use tfm_demo.Store.Effects.{Action, fail, gets, as_error, when, ◌>>=◌, ◌>>◌}
use tfm_demo.Store.Flash.{Driver, read, write, block_to_block_move}
use tfm_demo.Store.Meta.{BlockMetadata, AssetMeta, of_block_metadata, of_assetmeta}
use tfm_demo.Store.Tables.{
  cur_meta_scratch, cur_meta_active, cur_data_scratch, read_block_metadata, dblock_lo_to_phy,
}

module _ (d : Driver) where
  unfoldable pub dblock_update_scratch : ℕ → BlockMetadata → Bytes → ℕ → ℕ → Action (Unit {0})
  dblock_update_scratch cur_logical_block block_meta content offset size = do
    scratch_block ← gets (cur_data_scratch cur_logical_block)
    write d scratch_block content offset size
    when (ltb block_meta.data_start offset) (
        block_to_block_move d scratch_block block_meta.data_start block_meta.phys_id
          block_meta.data_start (offset - block_meta.data_start))
    block_to_block_move d scratch_block (add32 offset size) block_meta.phys_id (add32 offset size)
        (sub32 (sub32 block_size (add32 offset size)) block_meta.free_size)

  unfoldable pub mblock_update_scratch_object_meta : ℕ → AssetMeta → Action (Unit {0})
  mblock_update_scratch_object_meta object_index obj_meta = do
    scratch_block ← gets cur_meta_scratch
    write d scratch_block (of_assetmeta obj_meta) (object_meta_offset object_index) assetmeta_size

  unfoldable pub mblock_update_scratch_block_meta : ℕ → BlockMetadata → Action (Unit {0})
  mblock_update_scratch_block_meta lblock block_meta = do
    meta_block ← gets cur_meta_scratch
    write d meta_block (of_block_metadata block_meta) (block_meta_offset lblock) block_metadata_size

  unfoldable pub mblock_copy_remaining_object_meta : ℕ → Action (Unit {0})
  mblock_copy_remaining_object_meta object_index = do
    scratch_block ← gets cur_meta_scratch
    meta_block ← gets cur_meta_active
    block_to_block_move d scratch_block (object_meta_offset 0) meta_block (object_meta_offset 0)
        (object_index * assetmeta_size % word)
    let pos = object_meta_offset (object_index + 1)
    let end = object_meta_offset num_assets
    when (ltb pos end) (block_to_block_move d scratch_block pos meta_block pos (end - pos))

  -- The blocks before `lblock`, for an `lblock` other than 0: block 0 moves with the metadata.
  unfoldable pub copy_blocks_before : ℕ → ℕ → ℕ → Action (Unit {0})
  copy_blocks_before scratch_block meta_block lblock = do
    block_meta ← as_error SstErr.system_error (read_block_metadata d logical_dblock0)
    as_error SstErr.system_error (
        mblock_update_scratch_block_meta logical_dblock0
          (record block_meta { phys_id = scratch_block }))
    let size = sub32 lblock 1 * block_metadata_size % word
    let pos = header_size + block_metadata_size
    when (ltb 0 size) (block_to_block_move d scratch_block pos meta_block pos size)

  unfoldable pub mblock_copy_remaining_block_meta : ℕ → Action (Unit {0})
  mblock_copy_remaining_block_meta lblock = do
    scratch_block ← gets cur_meta_scratch
    meta_block ← gets cur_meta_active
    when (not (lblock == logical_dblock0)) (copy_blocks_before scratch_block meta_block lblock)
    let pos = block_meta_offset (lblock + 1)
    block_to_block_move d scratch_block pos meta_block pos (sub32 (object_meta_offset 0) pos)

  unfoldable pub block_object_read_raw : AssetMeta → ℕ → ℕ → Action Bytes
  block_object_read_raw meta offset size = do
    phys_block ← dblock_lo_to_phy d meta.lblock
    let contents = read d phys_block (add32 meta.data_index offset) size
    if phys_block == block_invalid_id then fail SstErr.system_error else contents

  unfoldable pub mblock_migrate_data_to_scratch : Action (Unit {0})
  mblock_migrate_data_to_scratch = do
    scratch_metablock ← gets cur_meta_scratch
    current_metablock ← gets cur_meta_active
    block_meta ← read_block_metadata d logical_dblock0
    block_to_block_move d scratch_metablock block_meta.data_start current_metablock
        block_meta.data_start (sub32 (sub32 block_size block_meta.data_start) block_meta.free_size)
