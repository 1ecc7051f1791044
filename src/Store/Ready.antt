-- ===== src/Store/Ready.antt =====
-- A prepared file system, and one with a new object.
use tfm_demo.Prelude.{ℕ, ◌+◌, ◌≤◌, ◌<◌, ◌≡◌, ◌∙◌, arith}
use tfm_demo.AuditLog.Buffer.{Bytes}
use tfm_demo.Store.Layout.{
  block_size, header_size, metadata_block1, total_num_of_blocks, scratch_idx_offset,
  fs_version_offset, swap_count_offset, flash_default_val, supported_version, object_meta_offset,
  block_meta_offset,
}
use tfm_demo.Store.Effects.{Storage}
use tfm_demo.Store.Meta.{u32_at}
use tfm_demo.Store.Validate.{validate_swap_count}
use tfm_demo.Store.Tables.{Reserved}
use tfm_demo.Store.Commit.{next_swap_count}
use tfm_demo.Store.Staged.{HasMetaBlocks, block_of, block_entry, active_of}
use tfm_demo.Store.Entries.{to_assetmeta_agree, to_block_metadata_agree}
use tfm_demo.Store.Created.{IsCreated}
use tfm_demo.Store.Reserve.{IsReserved, IsFree}

-- A prepared file system: the running context fits the active metadata block, and the scratch
-- metadata block is erased.
pub record IsReady (s : Storage) : Type 0 where
  pub apart : HasMetaBlocks s
  pub block0 : (block_entry (active_of s) 0).phys_id ≤ metadata_block1
  pub erased : (o : ℕ) → o < block_size → block_of s s.scratch_metablock o ≡ flash_default_val
  pub scratch_lo : 2 ≤ s.meta_block_header.scratch_idx
  pub scratch_hi : s.meta_block_header.scratch_idx < total_num_of_blocks
  pub version : s.meta_block_header.fs_version ≡ supported_version
  pub count : s.meta_block_header.active_swap_count < flash_default_val
  pub flash_version : active_of s fs_version_offset ≡ supported_version
  pub flash_scratch : u32_at (active_of s) scratch_idx_offset ≡ s.meta_block_header.scratch_idx
  pub flash_count : active_of s swap_count_offset ≡ s.meta_block_header.active_swap_count

-- The contents are the tables of the old active block with the new object: at a free entry, in the
-- first block with room.
pub record HasNew (before : Storage) (uuid size metablock : ℕ) (new : Bytes) : Type 0 where
  pub entry : ℕ
  pub place : Reserved
  pub free : IsFree (active_of before) entry
  pub reserved : IsReserved (active_of before) size place
  pub tables : IsCreated (active_of before) new metablock uuid size entry place

pub next_small : (c : ℕ) → c < flash_default_val → next_swap_count c < flash_default_val
unfolding next_swap_count validate_swap_count
next_small c h = ground arith

pub HasNew-agree :
    (before : Storage) (uuid size metablock : ℕ) (new new' : Bytes)
    → ((o : ℕ) → header_size ≤ o → o < block_size → new' o ≡ new o)
    → HasNew before uuid size metablock new
    → HasNew before uuid size metablock new'
HasNew-agree before uuid size metablock new new' h c = record {
  entry = c.entry;
  place = c.place;
  free = c.free;
  reserved = c.reserved;
  tables = record {
    objects = λ k l.
        to_assetmeta_agree _ _ (λ x b. h (object_meta_offset k + x) (omega arith) (omega arith))
        ∙ c.tables.objects k l;
    blocks = λ k l.
        to_block_metadata_agree _ _ (λ x b. h (block_meta_offset k + x) (omega arith) (omega arith))
        ∙ c.tables.blocks k l;
    contents = λ o a b. h o (omega arith) (omega arith) ∙ c.tables.contents o a b;
  };
}
