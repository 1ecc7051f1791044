-- ===== src/Store/Meta.antt =====
-- The structures that lie in a metadata block, to and from their bytes.
use tfm_demo.Prelude.{ℕ, ◌-◌, ◌%◌, ltb, if◌then◌else◌, word}
use tfm_demo.AuditLog.Buffer.{Bytes, byte_of, read32}
use tfm_demo.Store.Layout.{scratch_idx_offset, fs_version_offset, swap_count_offset}
use tfm_demo.Store.Effects.{Header}

-- struct sst_block_metadata
pub record BlockMetadata : Type 0 where
  pub phys_id : ℕ
  pub data_start : ℕ
  pub free_size : ℕ

-- struct sst_assetmeta
pub record AssetMeta : Type 0 where
  pub lblock : ℕ
  pub data_index : ℕ
  pub cur_size : ℕ
  pub max_size : ℕ
  pub unique_id : ℕ

-- A member of type uint32_t or uint8_t
abbrev pub u32_at : Bytes → ℕ → ℕ
u32_at b i = read32 b i % word

abbrev pub u8_at : Bytes → ℕ → ℕ
u8_at b i = b i % 256

abbrev pub to_block_metadata : Bytes → BlockMetadata
to_block_metadata b = record {
  phys_id = u32_at b 0;
  data_start = u32_at b 4;
  free_size = u32_at b 8;
}

unfoldable pub of_block_metadata : BlockMetadata → Bytes
of_block_metadata m k =
    if ltb k 4
    then byte_of m.phys_id k
    else if ltb k 8
    then byte_of m.data_start (k - 4)
    else byte_of m.free_size (k - 8)

abbrev pub to_assetmeta : Bytes → AssetMeta
to_assetmeta b = record {
  lblock = u32_at b 0;
  data_index = u32_at b 4;
  cur_size = u32_at b 8;
  max_size = u32_at b 12;
  unique_id = u32_at b 16;
}

unfoldable pub of_assetmeta : AssetMeta → Bytes
of_assetmeta m k =
    if ltb k 4
    then byte_of m.lblock k
    else if ltb k 8
    then byte_of m.data_index (k - 4)
    else if ltb k 12
    then byte_of m.cur_size (k - 8)
    else if ltb k 16
    then byte_of m.max_size (k - 12)
    else byte_of m.unique_id (k - 16)

abbrev pub to_header : Bytes → Header
to_header b = record {
  crypto = b;
  scratch_idx = u32_at b scratch_idx_offset;
  fs_version = u8_at b fs_version_offset;
  active_swap_count = u8_at b swap_count_offset;
}

-- The bytes up to and with the swap count; the two behind it are padding.
unfoldable pub of_header : Header → Bytes
of_header h k =
    if ltb k scratch_idx_offset
    then h.crypto k
    else if ltb k fs_version_offset
    then byte_of h.scratch_idx (k - scratch_idx_offset)
    else if ltb k swap_count_offset
    then h.fs_version % 256
    else h.active_swap_count % 256
