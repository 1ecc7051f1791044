-- ===== src/Store/Bytes.antt =====
-- A structure written to the flash is the one read back.
use tfm_demo.Prelude.{ℕ, ◌+◌, ◌<◌, ◌≡◌, arith, word}
use tfm_demo.AuditLog.Buffer.{Bytes, byte_of}
use tfm_demo.AuditLog.Copy.{read32-byte_of}
use tfm_demo.Store.Meta.{
  BlockMetadata, AssetMeta, u32_at, to_block_metadata, of_block_metadata, to_assetmeta,
  of_assetmeta,
}

pub u32_at-byte_of :
    (b : Bytes) (i v : ℕ) → v < word → ((k : ℕ) → k < 4 → b (i + k) ≡ byte_of v k) → u32_at b i ≡ v
u32_at-byte_of b i v lt h = omega (arith, read32-byte_of b i v lt h)

pub to_block_metadata-of_block_metadata :
    (b : Bytes) (m : BlockMetadata)
    → m.phys_id < word
    → m.data_start < word
    → m.free_size < word
    → ((k : ℕ) → k < 12 → b k ≡ of_block_metadata m k)
    → to_block_metadata b ≡ m
unfolding of_block_metadata
to_block_metadata-of_block_metadata b m h0 h1 h2 h = cc (
  u32_at-byte_of b 0 m.phys_id h0 (λ k l. ground (arith, h (0 + k))),
  u32_at-byte_of b 4 m.data_start h1 (λ k l. ground (arith, h (4 + k))),
  u32_at-byte_of b 8 m.free_size h2 (λ k l. ground (arith, h (8 + k))),
)

pub to_assetmeta-of_assetmeta :
    (b : Bytes) (m : AssetMeta)
    → m.lblock < word
    → m.data_index < word
    → m.cur_size < word
    → m.max_size < word
    → m.unique_id < word
    → ((k : ℕ) → k < 20 → b k ≡ of_assetmeta m k)
    → to_assetmeta b ≡ m
unfolding of_assetmeta
to_assetmeta-of_assetmeta b m h0 h1 h2 h3 h4 h = cc (
  u32_at-byte_of b 0 m.lblock h0 (λ k l. ground (arith, h (0 + k))),
  u32_at-byte_of b 4 m.data_index h1 (λ k l. ground (arith, h (4 + k))),
  u32_at-byte_of b 8 m.cur_size h2 (λ k l. ground (arith, h (8 + k))),
  u32_at-byte_of b 12 m.max_size h3 (λ k l. ground (arith, h (12 + k))),
  u32_at-byte_of b 16 m.unique_id h4 (λ k l. ground (arith, h (16 + k))),
)
