-- ===== src/Store/Layout.antt =====
-- The sizes and positions of the file system: flash_layout.h of mps2/an521, sst_core.c and
-- sst_core.h. Encryption is off, as the build sets it.
use tfm_demo.Prelude.{ℕ, ◌+◌, ◌-◌, ◌*◌, ◌%◌, ◌==◌, if◌then◌else◌, word, add32}

-- SST_BLOCK_SIZE, SST_TOTAL_NUM_OF_BLOCKS, SST_FLASH_AREA_ADDR, SST_FLASH_PROGRAM_UNIT
abbrev pub block_size : ℕ
block_size = 4096

abbrev pub total_num_of_blocks : ℕ
total_num_of_blocks = 5

abbrev pub flash_area_addr : ℕ
flash_area_addr = 3670016

abbrev pub flash_program_unit : ℕ
flash_program_unit = 1

-- SST_FLASH_DEFAULT_VAL, SST_BLOCK_INVALID_ID
abbrev pub flash_default_val : ℕ
flash_default_val = 255

abbrev pub block_invalid_id : ℕ
block_invalid_id = word - 1

-- SST_METADATA_BLOCK0, SST_METADATA_BLOCK1, SST_LOGICAL_DBLOCK0
abbrev pub metadata_block0 : ℕ
metadata_block0 = 0

abbrev pub metadata_block1 : ℕ
metadata_block1 = 1

abbrev pub logical_dblock0 : ℕ
logical_dblock0 = 0

-- SST_OTHER_META_BLOCK
abbrev pub other_meta_block : ℕ → ℕ
other_meta_block metablock =
    if metablock == metadata_block0 then metadata_block1 else metadata_block0

-- SST_INIT_SCRATCH_DBLOCK, SST_INIT_DBLOCK_START, SST_NUM_DEDICATED_DBLOCKS, SST_NUM_ACTIVE_DBLOCKS
abbrev pub init_scratch_dblock : ℕ
init_scratch_dblock = 2

abbrev pub init_dblock_start : ℕ
init_dblock_start = 3

abbrev pub num_dedicated_dblocks : ℕ
num_dedicated_dblocks = total_num_of_blocks - init_dblock_start

abbrev pub num_active_dblocks : ℕ
num_active_dblocks = num_dedicated_dblocks + 1

-- SST_NUM_ASSETS, SST_METADATA_INVALID_INDEX, SST_SUPPORTED_VERSION
abbrev pub num_assets : ℕ
num_assets = 10

abbrev pub metadata_invalid_index : ℕ
metadata_invalid_index = 65535

abbrev pub supported_version : ℕ
supported_version = 1

-- sizeof struct sst_metadata_block_header, sst_block_metadata and sst_assetmeta
abbrev pub header_size : ℕ
header_size = 36

abbrev pub block_metadata_size : ℕ
block_metadata_size = 12

abbrev pub assetmeta_size : ℕ
assetmeta_size = 20

-- offsetof(struct sst_metadata_block_header, …)
abbrev pub scratch_idx_offset : ℕ
scratch_idx_offset = 28

abbrev pub fs_version_offset : ℕ
fs_version_offset = 32

abbrev pub swap_count_offset : ℕ
swap_count_offset = 33

-- sizeof(struct sst_obj_header_t), SST_MAX_ASSET_SIZE, SST_MAX_OBJECT_SIZE,
-- SST_ALIGNED_MAX_OBJECT_SIZE
abbrev pub object_header_size : ℕ
object_header_size = 48

abbrev pub max_asset_size : ℕ
max_asset_size = 256

abbrev pub max_object_size : ℕ
max_object_size = object_header_size + max_asset_size

abbrev pub aligned_max_object_size : ℕ
aligned_max_object_size =
    flash_program_unit - max_object_size % flash_program_unit + max_object_size

-- sst_meta_block_meta_offset, sst_meta_object_meta_offset
abbrev pub block_meta_offset : ℕ → ℕ
block_meta_offset idx = add32 header_size (idx * block_metadata_size)

abbrev pub object_meta_offset : ℕ → ℕ
object_meta_offset object_index =
    add32 (header_size + num_active_dblocks * block_metadata_size) (object_index * assetmeta_size)

-- SST_ALL_METADATA_SIZE
abbrev pub all_metadata_size : ℕ
all_metadata_size =
    header_size + num_active_dblocks * block_metadata_size + num_assets * assetmeta_size
