-- ===== src/Store/Delete.antt =====
-- sst_compact_dblock and sst_core_object_delete
use tfm_demo.Prelude.{
  ℕ, Bool, zero, suc, ◌+◌, ◌-◌, ◌==◌, ltb, not, ◌&&◌, if◌then◌else◌, add32, sub32,
}
use tfm_demo.Sst.Utils.{SstErr, invalid_uuid, validate_uuid}
use tfm_demo.Store.Layout.{block_size, num_assets, flash_program_unit}
use tfm_demo.Store.Effects.{
  Action, pure, fail, gets, modify, as_error, attempt, when, or_undo, ◌>>=◌, ◌>>◌,
}
use tfm_demo.Store.Flash.{Driver, block_to_block_move}
use tfm_demo.Store.Meta.{AssetMeta}
use tfm_demo.Store.Validate.{get_aligned_flash_bytes, succeeded}
use tfm_demo.Store.Tables.{
  get_object_idx, read_object_meta, read_block_metadata, cur_data_scratch, set_data_scratch,
}
use tfm_demo.Store.Scratch.{
  mblock_update_scratch_object_meta, mblock_update_scratch_block_meta,
  mblock_copy_remaining_block_meta,
}
use tfm_demo.Store.Commit.{meta_update_finalize}

-- `src_offset` and `nbr_bytes_to_move` of the loop over the objects
pub record Moves : Type 0 where
  pub src_offset : ℕ
  pub nbr_bytes_to_move : ℕ

-- An object of the block that lies behind the deleted data.
abbrev pub is_behind : ℕ → ℕ → AssetMeta → Bool
is_behind lblock data_index meta = (meta.lblock == lblock) && ltb data_index meta.data_index

abbrev pub add_move : AssetMeta → Moves → Moves
add_move meta mv = record {
  src_offset = if ltb meta.data_index mv.src_offset then meta.data_index else mv.src_offset;
  nbr_bytes_to_move =
      add32 mv.nbr_bytes_to_move (get_aligned_flash_bytes flash_program_unit meta.max_size);
}

abbrev pub moved_down : ℕ → AssetMeta → AssetMeta
moved_down by meta = record meta { data_index = sub32 meta.data_index by }

abbrev pub released : AssetMeta → AssetMeta
released meta = record meta { unique_id = invalid_uuid; lblock = 0; max_size = 0; cur_size = 0 }

-- Nothing to move yet.
abbrev pub no_moves : Moves
no_moves = record { src_offset = block_size; nbr_bytes_to_move = 0 }

module _ (d : Driver) where
  -- (void) sst_mblock_update_scratch_object_meta(…);
  unfoldable pub put_object_meta : ℕ → AssetMeta → Action (Unit {0})
  put_object_meta idx meta = do _ ← attempt (mblock_update_scratch_object_meta d idx meta); pure tt

  -- The loop from `obj_idx`: the entries in the scratch block, with the objects behind the deleted
  -- one moved down by `del_max_size`.
  unfoldable pub move_loop : ℕ → AssetMeta → ℕ → Moves → ℕ → ℕ → Action Moves
  move_loop del_idx del del_max_size mv obj_idx zero = pure mv
  move_loop del_idx del del_max_size mv obj_idx (suc rounds) = do
    let rest = λ (m : Moves). move_loop del_idx del del_max_size m (obj_idx + 1) rounds
    let visit : Action Moves = read_object_meta d obj_idx >>= λ meta.
        if is_behind del.lblock del.data_index meta
        then put_object_meta obj_idx (moved_down del_max_size meta) >> rest (add_move meta mv)
        else put_object_meta obj_idx meta >> rest mv
    if obj_idx == del_idx then rest mv else visit

  unfoldable pub compact_dblock : ℕ → ℕ → ℕ → ℕ → ℕ → Action (Unit {0})
  compact_dblock lblock obj_size src_offset dst_offset size = do
    block_meta ← read_block_metadata d lblock
    scratch_dblock_id ← gets (cur_data_scratch lblock)
    when (ltb 0 size) (
        as_error SstErr.system_error
          (block_to_block_move d scratch_dblock_id dst_offset block_meta.phys_id src_offset size))
    when (ltb block_meta.data_start dst_offset) (
        as_error SstErr.system_error (
          block_to_block_move d scratch_dblock_id block_meta.data_start block_meta.phys_id
            block_meta.data_start (dst_offset - block_meta.data_start)))
    modify (set_data_scratch block_meta.phys_id lblock)
    or_undo (set_data_scratch scratch_dblock_id lblock) (
        mblock_update_scratch_block_meta d lblock (record block_meta {
          phys_id = scratch_dblock_id;
          free_size = add32 block_meta.free_size obj_size;
        }))
    or_undo (set_data_scratch scratch_dblock_id lblock) (mblock_copy_remaining_block_meta d lblock)

  -- All that comes before the metadata header is written.
  unfoldable pub stage_deletion : ℕ → Action (Unit {0})
  stage_deletion object_uuid = do
    del_idx ← as_error SstErr.asset_not_found (get_object_idx d object_uuid)
    del ← read_object_meta d del_idx
    when (not (succeeded (validate_uuid del.unique_id))) (fail SstErr.asset_not_found)
    let del_max_size = get_aligned_flash_bytes flash_program_unit del.max_size
    put_object_meta del_idx (released del)
    mv ← move_loop del_idx del del_max_size no_moves 0 num_assets
    compact_dblock del.lblock del_max_size mv.src_offset del.data_index mv.nbr_bytes_to_move

  unfoldable pub object_delete : ℕ → Action (Unit {0})
  object_delete object_uuid = do
    stage_deletion object_uuid
    _ ← attempt (meta_update_finalize d)
    pure tt
