-- ===== src/Store/Wipe.antt =====
-- sst_core_wipe_all
use tfm_demo.Prelude.{ℕ, Bool, zero, suc, ◌+◌, ◌-◌, none, some, true, false, if◌then◌else◌}
use tfm_demo.Sst.Utils.{SstErr}
use tfm_demo.Store.Layout.{
  block_size, metadata_block0, metadata_block1, logical_dblock0, other_meta_block,
  all_metadata_size, num_assets, init_scratch_dblock, init_dblock_start, num_dedicated_dblocks,
  supported_version,
}
use tfm_demo.Store.Effects.{
  Storage, Action, pure, fail, gets, modify, as_error, attempt, ◌>>=◌, ◌>>◌,
}
use tfm_demo.Store.Flash.{Driver, erase_block}
use tfm_demo.Store.Meta.{AssetMeta, BlockMetadata}
use tfm_demo.Store.Tables.{swap_metablocks}
use tfm_demo.Store.Scratch.{mblock_update_scratch_block_meta, mblock_update_scratch_object_meta}
use tfm_demo.Store.Commit.{meta_write_scratch_meta_header}
use tfm_demo.Store.Prepare.{init_get_active_metablock}

abbrev initial_ctx : Storage → Storage
initial_ctx s = record s {
  meta_block_header = record s.meta_block_header {
    active_swap_count = 0;
    scratch_idx = init_scratch_dblock;
    fs_version = supported_version;
  };
  scratch_metablock = metadata_block1;
  active_metablock = metadata_block0;
}

abbrev dblock0_meta : BlockMetadata
dblock0_meta = record {
  phys_id = metadata_block0;
  data_start = all_metadata_size;
  free_size = block_size - all_metadata_size;
}

abbrev dedicated_meta : ℕ → BlockMetadata
dedicated_meta i = record {
  phys_id = i + init_dblock_start;
  data_start = 0;
  free_size = block_size;
}

abbrev pub empty_object : AssetMeta
empty_object = record { lblock = 0; data_index = 0; cur_size = 0; max_size = 0; unique_id = 0 }

module _ (d : Driver) where
  -- The loop over the dedicated blocks from `i`; the answer is whether `err` is still success.
  unfoldable pub erase_loop : Bool → ℕ → ℕ → Action Bool
  erase_loop no_error i zero = pure no_error
  erase_loop no_error i (suc rounds) = do
    let rest = λ (b : Bool). erase_loop b (i + 1) rounds
    erased ← attempt (erase_block d i)
    elim erased [ none ↦ rest false | some _ ↦ rest no_error ]

  unfoldable pub dedicated_meta_loop : ℕ → ℕ → Action (Unit {0})
  dedicated_meta_loop i zero = pure tt
  dedicated_meta_loop i (suc rounds) = do
    let rest = dedicated_meta_loop (i + 1) rounds
    mblock_update_scratch_block_meta d (i + 1) (dedicated_meta i)
    rest

  unfoldable pub empty_object_loop : ℕ → ℕ → Action (Unit {0})
  empty_object_loop i zero = pure tt
  empty_object_loop i (suc rounds) = do
    let rest = empty_object_loop (i + 1) rounds
    mblock_update_scratch_object_meta d i empty_object
    rest

  -- The fresh tables, in the scratch metadata block.
  unfoldable pub fill_tables : Action (Unit {0})
  fill_tables = do
    dedicated_meta_loop 0 num_dedicated_dblocks
    empty_object_loop 0 num_assets
    meta_write_scratch_meta_header d

  unfoldable pub block_to_erase_first : Action ℕ
  block_to_erase_first = do
    found ← attempt (init_get_active_metablock d)
    scratch ← gets λ s. s.scratch_metablock
    elim found [ none ↦ pure metadata_block0 | some _ ↦ pure scratch ]

  unfoldable pub core_wipe_all : Action (Unit {0})
  core_wipe_all = do
    first ← block_to_erase_first
    erase_block d first
    erase_block d (other_meta_block first)
    modify initial_ctx
    _ ← attempt (mblock_update_scratch_block_meta d logical_dblock0 dblock0_meta)
    no_error ← erase_loop true init_dblock_start (num_dedicated_dblocks - init_dblock_start)
    if no_error
        then as_error SstErr.system_error fill_tables >> modify swap_metablocks
        else fail SstErr.system_error
