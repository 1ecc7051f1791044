-- ===== src/Store/Validate.antt =====
-- The checks of sst_core.c on metadata read from the flash, and its choice of the metadata block.
use tfm_demo.Prelude.{
  ℕ, ◌-◌, ◌%◌, ◌==◌, Bool, true, false, ◌&&◌, ◌||◌, not, leb, ltb, if◌then◌else◌, add32,
}
use tfm_demo.Sst.Utils.{SstErr, check_contained_in, validate_uuid}
use tfm_demo.Store.Layout.{
  block_size, total_num_of_blocks, num_active_dblocks, num_assets, metadata_block0, metadata_block1,
  logical_dblock0, max_object_size, object_meta_offset, flash_default_val, supported_version,
}
use tfm_demo.Store.Effects.{Header}
use tfm_demo.Store.Meta.{BlockMetadata, AssetMeta}

-- `program_unit` is SST_FLASH_PROGRAM_UNIT.
unfoldable pub get_aligned_flash_bytes : ℕ → ℕ → ℕ
get_aligned_flash_bytes program_unit nbr_bytes =
    let rest = nbr_bytes % program_unit in
    let align_flash_size = if rest == 0 then rest else program_unit - rest in
    add32 align_flash_size nbr_bytes

unfoldable pub latest_meta_block : Header → Header → ℕ
latest_meta_block meta0 meta1 =
    if (meta1.active_swap_count == 0) && not (meta0.active_swap_count == 1)
    then metadata_block1
    else if (meta0.active_swap_count == 0) && not (meta1.active_swap_count == 1)
    then metadata_block0
    else if ltb meta0.active_swap_count meta1.active_swap_count
    then metadata_block1
    else metadata_block0

-- err == PSA_SST_ERR_SUCCESS
abbrev pub succeeded : SstErr → Bool
succeeded SstErr.success = true
succeeded SstErr.asset_not_prepared = false
succeeded SstErr.asset_not_found = false
succeeded SstErr.param_error = false
succeeded SstErr.storage_system_full = false
succeeded SstErr.system_error = false

unfoldable pub validate_block_meta : BlockMetadata → SstErr
validate_block_meta block_meta =
    let valid_data_start_value =
      if (block_meta.phys_id == metadata_block0) || (block_meta.phys_id == metadata_block1)
      then object_meta_offset num_assets
      else 0 in
    if leb total_num_of_blocks block_meta.phys_id
    then SstErr.system_error
    else if not
        (succeeded (check_contained_in 0 block_size block_meta.data_start block_meta.free_size))
    then SstErr.asset_not_found
    else if block_meta.data_start == valid_data_start_value
    then SstErr.success
    else SstErr.asset_not_found

unfoldable pub validate_object_meta : AssetMeta → SstErr
validate_object_meta meta =
    if leb num_active_dblocks meta.lblock
    then SstErr.asset_not_found
    else if not (succeeded (validate_uuid meta.unique_id))
    then SstErr.success
    else if ltb max_object_size meta.max_size
    then SstErr.asset_not_found
    else if ltb meta.max_size meta.cur_size
    then SstErr.asset_not_found
    else if (meta.lblock == logical_dblock0) && ltb meta.data_index (object_meta_offset num_assets)
    then SstErr.asset_not_found
    else check_contained_in 0 block_size meta.data_index meta.max_size

unfoldable pub validate_swap_count : ℕ → SstErr
validate_swap_count swap_count =
    if swap_count == flash_default_val then SstErr.system_error else SstErr.success

unfoldable pub validate_fs_version : ℕ → SstErr
validate_fs_version fs_version =
    if fs_version == supported_version then SstErr.success else SstErr.system_error

unfoldable pub validate_header_meta : Header → SstErr
validate_header_meta meta =
    let err = validate_fs_version meta.fs_version in
    if succeeded err then validate_swap_count meta.active_swap_count else err
