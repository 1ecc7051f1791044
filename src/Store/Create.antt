-- ===== src/Store/Create.antt =====
-- sst_core_object_create
use tfm_demo.Prelude.{ℕ, Option, none, some, ◌==◌, if◌then◌else◌}
use tfm_demo.Sst.Utils.{SstErr}
use tfm_demo.Store.Layout.{metadata_invalid_index, logical_dblock0}
use tfm_demo.Store.Effects.{Action, fail, gets, as_error, attempt, ◌>>=◌, ◌>>◌}
use tfm_demo.Store.Flash.{Driver}
use tfm_demo.Store.Meta.{AssetMeta, BlockMetadata}
use tfm_demo.Store.Tables.{Reserved, reserve_object, get_free_object_index, cur_meta_scratch}
use tfm_demo.Store.Scratch.{
  mblock_update_scratch_object_meta, mblock_update_scratch_block_meta,
  mblock_copy_remaining_object_meta, mblock_copy_remaining_block_meta,
  mblock_migrate_data_to_scratch,
}
use tfm_demo.Store.Commit.{meta_update_finalize}

abbrev pub new_object : Reserved → ℕ → ℕ → AssetMeta
new_object r object_uuid size = record {
  lblock = r.lblock;
  data_index = r.data_index;
  cur_size = 0;
  max_size = size;
  unique_id = object_uuid;
}

-- Logical block 0 moves with the metadata.
abbrev pub moved_block_meta : Reserved → ℕ → BlockMetadata
moved_block_meta r scratch_block =
    if r.lblock == logical_dblock0
    then record (r.block_meta) { phys_id = scratch_block }
    else r.block_meta

module _ (d : Driver) where
  -- The new tables and the data of block 0, in the scratch metadata block.
  unfoldable pub stage_tables : ℕ → ℕ → Reserved → ℕ → Action (Unit {0})
  stage_tables object_uuid size r object_index = as_error SstErr.system_error do
    mblock_update_scratch_object_meta d object_index (new_object r object_uuid size)
    scratch_block ← gets cur_meta_scratch
    mblock_update_scratch_block_meta d r.lblock (moved_block_meta r scratch_block)
    mblock_copy_remaining_object_meta d object_index
    mblock_copy_remaining_block_meta d r.lblock
    mblock_migrate_data_to_scratch d

  -- From the reservation on, which is looked at when a free entry has been searched for too.
  unfoldable pub place_object : ℕ → ℕ → Option Reserved → Action (Unit {0})
  place_object object_uuid size none = do
    _ ← get_free_object_index d
    fail SstErr.storage_system_full
  place_object object_uuid size (some r) = do
    object_index ← get_free_object_index d
    let stage = stage_tables object_uuid size r object_index
    if object_index == metadata_invalid_index then fail SstErr.storage_system_full else stage

  -- All that comes before the metadata header is written.
  unfoldable pub stage_creation : ℕ → ℕ → Action (Unit {0})
  stage_creation object_uuid size = do
    reserved ← attempt (reserve_object d size)
    place_object object_uuid size reserved

  unfoldable pub object_create : ℕ → ℕ → Action (Unit {0})
  object_create object_uuid size = do
    stage_creation object_uuid size
    as_error SstErr.system_error (meta_update_finalize d)
