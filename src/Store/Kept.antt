-- ===== src/Store/Kept.antt =====
-- What an update leaves: the old tables, or the new ones under a header.
use tfm_demo.Prelude.{ℕ, ◌+◌, ◌%◌, ◌≤◌, ◌<◌, ◌≡◌, ◌≢◌, ◌∙◌, arith, inl, inr}
use native.Mathlib.Decide.{dec_lt}
use tfm_demo.AuditLog.Buffer.{Bytes, byte_of}
use tfm_demo.Store.Layout.{
  block_size, scratch_idx_offset, fs_version_offset, swap_count_offset, total_num_of_blocks,
}
use tfm_demo.Store.Effects.{Storage, Header}
use tfm_demo.Store.Flash.{phys_address}
use tfm_demo.Store.Meta.{of_header, u32_at}
use tfm_demo.Store.Commit.{next_swap_count}
use tfm_demo.Store.Staged.{Holds, HasMetaBlocks, block_of, active_of}
use tfm_demo.Store.Entries.{u32_at_agree}
use tfm_demo.Store.Touched.{Touched}

-- The block that was active is as it was.
abbrev pub OldKept : Storage → Storage → Type 0
OldKept before now =
    (o : ℕ) → o < block_size → block_of now before.active_metablock o ≡ active_of before o

-- The block that was the scratch one holds the new tables under a header with the next count.
pub record Committed (before : Storage) (new : Bytes) (now : Storage) : Type 0 where
  pub tables : Holds before new now
  pub version :
      block_of now before.scratch_metablock fs_version_offset
      ≡ before.meta_block_header.fs_version % 256
  pub count :
      block_of now before.scratch_metablock swap_count_offset
      ≡ next_swap_count before.meta_block_header.active_swap_count % 256
  pub data_scratch :
      u32_at (block_of now before.scratch_metablock) scratch_idx_offset
      ≡ before.meta_block_header.scratch_idx

pub of_header-scratch_idx :
    (h : Header) (k : ℕ) → k < 4 → of_header h (scratch_idx_offset + k) ≡ byte_of h.scratch_idx k
unfolding of_header
of_header-scratch_idx h k l = ground arith

-- Another block is touched.
pub Committed-Touched :
    {before now s : Storage} {new : Bytes} (block offset size : ℕ)
    → HasMetaBlocks before
    → block < total_num_of_blocks
    → block ≢ before.scratch_metablock
    → offset + size ≤ block_size
    → Committed before new s
    → Touched (phys_address block offset) size s now
    → Committed before new now
Committed-Touched {before} {now} {s} {new} block offset size apart lt ne fits c t = record {
  tables = λ o a b. keep o b ∙ c.tables o a b;
  version = keep _ (omega arith) ∙ c.version;
  count = keep _ (omega arith) ∙ c.count;
  data_scratch =
      u32_at_agree (block_of now before.scratch_metablock) (block_of s before.scratch_metablock)
        scratch_idx_offset (λ k h. keep (scratch_idx_offset + k) (omega arith))
      ∙ c.data_scratch;
}
  where
    keep :
        (o : ℕ)
        → o < block_size
        → block_of now before.scratch_metablock o ≡ block_of s before.scratch_metablock o
    keep o h = t.kept _ (elim (dec_lt block before.scratch_metablock) [
      | yes a ↦ inr (omega arith)
      | no a ↦ inl (omega (arith, ne))
    ])

pub OldKept-Touched :
    (before now s : Storage) (block offset size : ℕ)
    → HasMetaBlocks before
    → block < total_num_of_blocks
    → block ≢ before.active_metablock
    → offset + size ≤ block_size
    → OldKept before s
    → Touched (phys_address block offset) size s now
    → OldKept before now
OldKept-Touched before now s block offset size apart lt ne fits c t o h =
    t.kept _ (elim (dec_lt block before.active_metablock) [
      | yes a ↦ inr (omega arith)
      | no a ↦ inl (omega (arith, ne))
    ])
    ∙ c o h
