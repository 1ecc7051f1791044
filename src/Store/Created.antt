-- ===== src/Store/Created.antt =====
-- The tables with a new object.
use tfm_demo.Prelude.{ℕ, ◌+◌, ◌≤◌, ◌<◌, ◌≡◌, ◌==◌, if◌then◌else◌}
use tfm_demo.AuditLog.Buffer.{Bytes}
use tfm_demo.Store.Layout.{
  block_size, num_assets, num_active_dblocks, all_metadata_size, logical_dblock0,
}
use tfm_demo.Store.Meta.{BlockMetadata, AssetMeta}
use tfm_demo.Store.Tables.{Reserved}
use tfm_demo.Store.Staged.{block_entry, object_entry}

-- Logical block 0 lies in the metadata block.
abbrev pub located : ℕ → ℕ → BlockMetadata → BlockMetadata
located metablock lblock m =
    if lblock == logical_dblock0 then record m { phys_id = metablock } else m

-- The entry of a new object, which holds no byte yet, at its place.
abbrev pub created_entry : Reserved → ℕ → ℕ → AssetMeta
created_entry r uuid size = record {
  lblock = r.lblock;
  data_index = r.data_index;
  cur_size = 0;
  max_size = size;
  unique_id = uuid;
}

-- The tables of `old` with a new object `r` at entry `j`, in block `metablock`, and the data that
-- lie behind the tables of `old`.
pub record IsCreated (old new : Bytes) (metablock uuid size j : ℕ) (r : Reserved) : Type 0 where
  pub objects :
      (k : ℕ)
      → k < num_assets
      → object_entry new k ≡ (if k == j then created_entry r uuid size else object_entry old k)
  pub blocks :
      (k : ℕ)
      → k < num_active_dblocks
      → block_entry new k
        ≡ located metablock k (if k == r.lblock then r.block_meta else block_entry old k)
  pub contents :
      (o : ℕ)
      → all_metadata_size ≤ o
      → o + (block_entry old 0).free_size < block_size
      → new o ≡ old o
