-- ===== src/Store/Tables.antt =====
-- Reading the tables of the active metadata block: sst_core.c.
use tfm_demo.Prelude.{ℕ, zero, suc, ◌+◌, ◌==◌, Option, none, some, not, leb, if◌then◌else◌, sub32}
use tfm_demo.Sst.Utils.{SstErr, validate_uuid}
use tfm_demo.Store.Layout.{
  block_size, block_metadata_size, assetmeta_size, num_assets, num_active_dblocks,
  block_meta_offset, object_meta_offset, metadata_invalid_index, block_invalid_id, logical_dblock0,
  flash_program_unit,
}
use tfm_demo.Store.Effects.{
  Action, Storage, Header, pure, fail, gets, as_error, attempt, ◌>>=◌, ◌>>◌,
}
use tfm_demo.Store.Flash.{Driver, read}
use tfm_demo.Store.Meta.{BlockMetadata, AssetMeta, to_block_metadata, to_assetmeta}
use tfm_demo.Store.Validate.{
  validate_block_meta, validate_object_meta, succeeded, get_aligned_flash_bytes,
}

abbrev pub cur_meta_scratch : Storage → ℕ
cur_meta_scratch s = s.scratch_metablock

abbrev pub cur_meta_active : Storage → ℕ
cur_meta_active s = s.active_metablock

abbrev pub swap_metablocks : Storage → Storage
swap_metablocks s = record s {
  scratch_metablock = s.active_metablock;
  active_metablock = s.scratch_metablock;
}

abbrev pub cur_data_scratch : ℕ → Storage → ℕ
cur_data_scratch lblock s =
    if lblock == logical_dblock0 then cur_meta_scratch s else s.meta_block_header.scratch_idx

abbrev pub on_header : (Header → Header) → Storage → Storage
on_header f s = record s { meta_block_header = f s.meta_block_header }

abbrev pub set_data_scratch : ℕ → ℕ → Storage → Storage
set_data_scratch index lblock s =
    if lblock == logical_dblock0 then s else on_header (λ h. record h { scratch_idx = index }) s

-- if (err != PSA_SST_ERR_SUCCESS) return err;
unfoldable pub check : SstErr → Action (Unit {0})
check err = if succeeded err then pure tt else fail err

-- What `sst_meta_reserve_object` fills in.
pub record Reserved : Type 0 where
  pub lblock : ℕ
  pub data_index : ℕ
  pub block_meta : BlockMetadata

abbrev pub reserve_in : ℕ → BlockMetadata → ℕ → Reserved
reserve_in lblock m size_in_flash = record {
  lblock = lblock;
  data_index = sub32 block_size m.free_size;
  block_meta = record m { free_size = sub32 m.free_size size_in_flash };
}

-- One round of the search for a free entry; `none` is an entry that cannot be read.
unfoldable pub free_or : ℕ → Action ℕ → Option AssetMeta → Action ℕ
free_or i rest none = pure metadata_invalid_index
free_or i rest (some meta) = if not (succeeded (validate_uuid meta.unique_id)) then pure i else rest

module _ (d : Driver) where
  unfoldable pub read_block_metadata : ℕ → Action BlockMetadata
  read_block_metadata lblock = do
    metablock ← gets cur_meta_active
    b ← read d metablock (block_meta_offset lblock) block_metadata_size
    check (validate_block_meta (to_block_metadata b))
    pure (to_block_metadata b)

  unfoldable pub read_object_meta : ℕ → Action AssetMeta
  read_object_meta object_index = do
    metablock ← gets cur_meta_active
    b ← read d metablock (object_meta_offset object_index) assetmeta_size
    check (validate_object_meta (to_assetmeta b))
    pure (to_assetmeta b)

  -- The loop from `i`, for the rounds that are left.
  unfoldable pub free_object_loop : ℕ → ℕ → Action ℕ
  free_object_loop i zero = pure metadata_invalid_index
  free_object_loop i (suc rounds) = do
    let rest = free_object_loop (i + 1) rounds
    read_meta ← attempt (read_object_meta i)
    free_or i rest read_meta

  unfoldable pub get_free_object_index : Action ℕ
  get_free_object_index = free_object_loop 0 num_assets

  unfoldable pub dblock_lo_to_phy : ℕ → Action ℕ
  dblock_lo_to_phy lblock = do
    read_meta ← attempt (read_block_metadata lblock)
    elim read_meta [ none ↦ pure block_invalid_id | some m ↦ pure m.phys_id ]

  unfoldable pub reserve_loop : ℕ → ℕ → ℕ → Action Reserved
  reserve_loop size_in_flash i zero = fail SstErr.storage_system_full
  reserve_loop size_in_flash i (suc rounds) = do
    let rest = reserve_loop size_in_flash (i + 1) rounds
    m ← as_error SstErr.system_error (read_block_metadata i)
    if leb size_in_flash m.free_size then pure (reserve_in i m size_in_flash) else rest

  unfoldable pub reserve_object : ℕ → Action Reserved
  reserve_object size =
      reserve_loop (get_aligned_flash_bytes flash_program_unit size) 0 num_active_dblocks

  unfoldable pub object_idx_loop : ℕ → ℕ → ℕ → Action ℕ
  object_idx_loop obj_uuid i zero = fail SstErr.asset_not_found
  object_idx_loop obj_uuid i (suc rounds) = do
    let rest = object_idx_loop obj_uuid (i + 1) rounds
    meta ← as_error SstErr.system_error (read_object_meta i)
    if meta.unique_id == obj_uuid then pure i else rest

  unfoldable pub get_object_idx : ℕ → Action ℕ
  get_object_idx obj_uuid = object_idx_loop obj_uuid 0 num_assets

  unfoldable pub object_exist : ℕ → Action (Unit {0})
  object_exist obj_uuid = do _ ← as_error SstErr.asset_not_found (get_object_idx obj_uuid); pure tt
