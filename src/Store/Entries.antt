-- ===== src/Store/Entries.antt =====
-- The entries of the tables in the active metadata block, and what their validation guarantees.
use tfm_demo.Prelude.{
  ℕ, true, ◌+◌, ◌%◌, ◌≤◌, ◌<◌, ◌≡◌, ◌==◌, ◌||◌, if◌then◌else◌, ap, ◌∙◌, arith, word,
}
use tfm_demo.AuditLog.Buffer.{Bytes}
use tfm_demo.Sst.Utils.{check_contained_in}
use tfm_demo.Store.Layout.{
  block_size, total_num_of_blocks, metadata_block0, metadata_block1, all_metadata_size,
}
use tfm_demo.Store.Meta.{BlockMetadata, u32_at, to_block_metadata, to_assetmeta}
use tfm_demo.Store.Validate.{validate_block_meta, succeeded}

pub u32_at_agree :
    (b c : Bytes) (i : ℕ) → ((k : ℕ) → k < 4 → b (i + k) ≡ c (i + k)) → u32_at b i ≡ u32_at c i
u32_at_agree b c i h =
    ap (λ (n : ℕ). n % word)
      (omega (arith, h0, h 1 (omega arith), h 2 (omega arith), h 3 (omega arith)))
  where
    h0 : b i ≡ c i
    h0 = ap b (omega arith) ∙ h 0 (omega arith) ∙ ap c (omega arith)

pub to_block_metadata_agree :
    (b c : Bytes) → ((k : ℕ) → k < 12 → b k ≡ c k) → to_block_metadata b ≡ to_block_metadata c
to_block_metadata_agree b c h = cc (
  u32_at_agree b c 0 (λ k l. h _ (omega arith)),
  u32_at_agree b c 4 (λ k l. h _ (omega arith)),
  u32_at_agree b c 8 (λ k l. h _ (omega arith)),
)

pub to_assetmeta_agree :
    (b c : Bytes) → ((k : ℕ) → k < 20 → b k ≡ c k) → to_assetmeta b ≡ to_assetmeta c
to_assetmeta_agree b c h = cc (
  u32_at_agree b c 0 (λ k l. h _ (omega arith)),
  u32_at_agree b c 4 (λ k l. h _ (omega arith)),
  u32_at_agree b c 8 (λ k l. h _ (omega arith)),
  u32_at_agree b c 12 (λ k l. h _ (omega arith)),
  u32_at_agree b c 16 (λ k l. h _ (omega arith)),
)

-- A block's data lie behind the metadata, if any, and its free bytes end with the block.
pub record IsBlockMeta (m : BlockMetadata) : Type 0 where
  pub block : m.phys_id < total_num_of_blocks
  pub room : m.data_start + m.free_size ≤ block_size
  pub start : m.data_start ≡ (
      if (m.phys_id == metadata_block0) || (m.phys_id == metadata_block1)
      then all_metadata_size
      else 0)

pub validate_block_meta-IsBlockMeta :
    (m : BlockMetadata)
    → m.data_start < word
    → m.free_size < word
    → succeeded (validate_block_meta m) ≡ true
    → IsBlockMeta m
unfolding validate_block_meta check_contained_in
validate_block_meta-IsBlockMeta m h k e = record {
  block = ground arith;
  room = ground arith;
  start = ground arith;
}
