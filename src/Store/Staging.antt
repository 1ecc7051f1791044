-- ===== src/Store/Staging.antt =====
-- The steps that fill the scratch metadata block, one rule for each.
use tfm_demo.Prelude.{ℕ, true, ◌+◌, ◌-◌, ◌≤◌, ◌<◌, ◌≡◌, ◌≢◌, ◌⊎◌, refl, ap, ◌∙◌, arith, inl, inr}
use native.Mathlib.Decide.{dec_lt}
use tfm_demo.AuditLog.Buffer.{Bytes}
use tfm_demo.Sst.Utils.{SstErr}
use tfm_demo.Store.Layout.{
  block_size, header_size, block_metadata_size, assetmeta_size, num_assets, block_meta_offset,
  object_meta_offset,
}
use tfm_demo.Store.Effects.{Storage}
use tfm_demo.Store.Flash.{
  Driver, IsFlash, Reply, phys_address, read, write, block_to_block_move, flash_read, request,
}
use tfm_demo.Store.Meta.{
  BlockMetadata, AssetMeta, to_block_metadata, of_block_metadata, of_assetmeta,
}
use tfm_demo.Store.Validate.{validate_block_meta, validate_object_meta, succeeded}
use tfm_demo.Store.Tables.{check, read_block_metadata, read_object_meta}
use tfm_demo.Store.Scratch.{mblock_update_scratch_object_meta, mblock_update_scratch_block_meta}
use tfm_demo.Store.Ends.{Ends, Ends-bind, Ends-answer, Ends-done, Ends-weaken}
use tfm_demo.Store.Staged.{
  IsStaged, Stage, HasMetaBlocks, write-Stage, Blank, patch, patch_agree, patch-inside,
  patch-outside, block_entry, object_entry, active_of, Fails,
}
use tfm_demo.Store.Entries.{
  IsBlockMeta, validate_block_meta-IsBlockMeta, to_block_metadata_agree, to_assetmeta_agree,
}

pub Ends-check :
    {P : Unit {0} → Storage → Type 0} {R : Storage → Type 0} (err : SstErr) (s : Storage)
    → (succeeded err ≡ true → P tt s)
    → (err ≢ SstErr.success → R s)
    → Ends (check err s) P R
unfolding check
Ends-check SstErr.success s h k = record { holds = h refl }
Ends-check SstErr.asset_not_prepared s h k = record { holds = k λ e. cc e }
Ends-check SstErr.asset_not_found s h k = record { holds = k λ e. cc e }
Ends-check SstErr.param_error s h k = record { holds = k λ e. cc e }
Ends-check SstErr.storage_system_full s h k = record { holds = k λ e. cc e }
Ends-check SstErr.system_error s h k = record { holds = k λ e. cc e }

-- The entry of an object, or of a block, replaced.
unfoldable pub put_object : ℕ → AssetMeta → Bytes → Bytes
put_object idx m =
    patch (object_meta_offset idx) assetmeta_size (λ o. of_assetmeta m (o - object_meta_offset idx))

unfoldable pub put_block : ℕ → BlockMetadata → Bytes → Bytes
put_block lblock m =
    patch (block_meta_offset lblock) block_metadata_size
      (λ o. of_block_metadata m (o - block_meta_offset lblock))

pub put_object-inside :
    (idx : ℕ) (m : AssetMeta) (c : Bytes) (o : ℕ)
    → object_meta_offset idx ≤ o
    → o < object_meta_offset idx + assetmeta_size
    → put_object idx m c o ≡ of_assetmeta m (o - object_meta_offset idx)
unfolding put_object
put_object-inside idx m c o lo hi = patch-inside _ _ _ c o lo hi

pub put_object-outside :
    (idx : ℕ) (m : AssetMeta) (c : Bytes) (o : ℕ)
    → (o < object_meta_offset idx) ⊎ (object_meta_offset idx + assetmeta_size ≤ o)
    → put_object idx m c o ≡ c o
unfolding put_object
put_object-outside idx m c o out = patch-outside _ _ _ c o out

pub put_block-inside :
    (lblock : ℕ) (m : BlockMetadata) (c : Bytes) (o : ℕ)
    → block_meta_offset lblock ≤ o
    → o < block_meta_offset lblock + block_metadata_size
    → put_block lblock m c o ≡ of_block_metadata m (o - block_meta_offset lblock)
unfolding put_block
put_block-inside lblock m c o lo hi = patch-inside _ _ _ c o lo hi

pub put_block-outside :
    (lblock : ℕ) (m : BlockMetadata) (c : Bytes) (o : ℕ)
    → (o < block_meta_offset lblock) ⊎ (block_meta_offset lblock + block_metadata_size ≤ o)
    → put_block lblock m c o ≡ c o
unfolding put_block
put_block-outside lblock m c o out = patch-outside _ _ _ c o out

module _ (d : Driver) (laws : IsFlash d) (before : Storage) (apart : HasMetaBlocks before) where
  active_apart :
      (o : ℕ)
      → o < block_size
      → (phys_address before.active_metablock o < phys_address before.scratch_metablock header_size)
        ⊎ (phys_address before.scratch_metablock block_size
            ≤ phys_address before.active_metablock o)
  active_apart o h = elim (dec_lt before.active_metablock 1) [
    | yes a ↦ inl (omega arith)
    | no a ↦ inr (omega arith)
  ]

  read-Stage :
      (contents : Bytes) (block offset size : ℕ) (s : Storage)
      → block ≡ before.active_metablock
      → offset + size ≤ block_size
      → Stage before contents s
      → Ends
          (read d block offset size s)
          (λ b s'.
            Stage before contents s' × ((k : ℕ) → k < size → b k ≡ active_of before (offset + k)))
          (Fails d before)
  unfolding read flash_read
  read-Stage contents block offset size s here h st =
      Ends-answer _ _ _ (λ e. (record { staged = same; holds = st.holds }, found e))
        (λ ne. (same, λ w v. ne (w.read_works _ _ _ _)))
    where
      same : IsStaged before (request s s.flash)
      same = record {
        active = st.staged.active;
        scratch = st.staged.scratch;
        header = st.staged.header;
        kept = st.staged.kept;
      }

      addr : ℕ
      addr = phys_address block offset

      found :
          d.read_reply s.requests s.flash addr size ≡ Reply.ok
          → (k : ℕ) → k < size
          → d.read_data s.requests s.flash addr size k ≡ active_of before (offset + k)
      found e k l =
          laws.reads _ _ _ _ k e l
          ∙ ap s.flash (omega (arith, here))
          ∙ st.staged.kept _ (active_apart (offset + k) (omega arith))

  pub read_block_metadata-Stage :
      (contents : Bytes) (lblock : ℕ) (s : Storage)
      → lblock < 3
      → Stage before contents s
      → Ends
          (read_block_metadata d lblock s)
          (λ m s'.
            Stage before contents s' × IsBlockMeta m × (m ≡ block_entry (active_of before) lblock))
          (Fails d before)
  unfolding read_block_metadata
  read_block_metadata-Stage contents lblock s lt st =
      Ends-bind _ _
        (read-Stage contents _ (block_meta_offset lblock) block_metadata_size s st.staged.active
          (omega arith) st)
        λ b s1 r.
          Ends-bind _ _
            (Ends-check {P = λ _ s'. Stage before contents s' × IsBlockMeta (to_block_metadata b)} _
              s1 (λ e. (r.0, validate_block_meta-IsBlockMeta _ (omega arith) (omega arith) e))
              (λ ne. (
                r.0.staged,
                λ w v.
                    ne (
                      ap validate_block_meta (to_block_metadata_agree _ _ r.1)
                      ∙ v.blocks lblock lt),
              )))
            λ _ s2 q. Ends-done _ s2 (q.0, q.1, to_block_metadata_agree _ _ r.1)

  pub read_object_meta-Stage :
      (contents : Bytes) (idx : ℕ) (s : Storage)
      → idx < num_assets
      → Stage before contents s
      → Ends
          (read_object_meta d idx s)
          (λ m s'. Stage before contents s' × (m ≡ object_entry (active_of before) idx))
          (Fails d before)
  unfolding read_object_meta
  read_object_meta-Stage contents idx s lt st =
      Ends-bind _ _
        (read-Stage contents _ (object_meta_offset idx) assetmeta_size s st.staged.active
          (omega arith) st)
        λ b s1 r.
          Ends-bind _ _
            (Ends-check {P = λ _. Stage before contents} _ s1 (λ e. r.0)
              (λ ne. (
                r.0.staged,
                λ w v. ne (ap validate_object_meta (to_assetmeta_agree _ _ r.1) ∙ v.objects idx lt),
              )))
            λ _ s2 q. Ends-done _ s2 (q, to_assetmeta_agree _ _ r.1)

  -- A part of the active block is copied to the same place.
  pub move-Stage :
      (contents : Bytes) (dst src offset size : ℕ) (s : Storage)
      → dst ≡ before.scratch_metablock
      → src ≡ before.active_metablock
      → header_size ≤ offset
      → offset + size ≤ block_size
      → Blank offset size contents
      → Stage before contents s
      → Ends
          (block_to_block_move d dst offset src offset size s)
          (λ _. Stage before (patch offset size (active_of before) contents))
          (Fails d before)
  unfolding block_to_block_move read
  move-Stage contents dst src offset size s to from lo hi erased st =
      Ends-bind _ _ (read-Stage contents src offset size s from hi st) λ b s1 r.
        Ends-weaken _
          (write-Stage d laws before apart contents b _ offset size s1
            (ap (λ (n : ℕ). phys_address n offset) to) lo hi erased r.0)
          λ _ s2 q. record {
            staged = q.staged;
            holds = λ o l h.
                q.holds o l h
                ∙ patch_agree offset size _ _ contents o
                    λ a k. r.1 (o - offset) (omega arith) ∙ ap (active_of before) (omega arith);
          }

  pub update_object-Stage :
      (contents : Bytes) (idx : ℕ) (m : AssetMeta) (s : Storage)
      → idx < num_assets
      → Blank (object_meta_offset idx) assetmeta_size contents
      → Stage before contents s
      → Ends
          (mblock_update_scratch_object_meta d idx m s)
          (λ _. Stage before (put_object idx m contents))
          (Fails d before)
  unfolding mblock_update_scratch_object_meta write put_object
  update_object-Stage contents idx m s lt erased st =
      write-Stage d laws before apart contents (of_assetmeta m) _ (object_meta_offset idx)
        assetmeta_size s (ap (λ (n : ℕ). phys_address n (object_meta_offset idx)) st.staged.scratch)
        (omega arith) (omega arith) erased st

  pub update_block-Stage :
      (contents : Bytes) (lblock : ℕ) (m : BlockMetadata) (s : Storage)
      → lblock < 3
      → Blank (block_meta_offset lblock) block_metadata_size contents
      → Stage before contents s
      → Ends
          (mblock_update_scratch_block_meta d lblock m s)
          (λ _. Stage before (put_block lblock m contents))
          (Fails d before)
  unfolding mblock_update_scratch_block_meta write put_block
  update_block-Stage contents lblock m s lt erased st =
      write-Stage d laws before apart contents (of_block_metadata m) _ (block_meta_offset lblock)
        block_metadata_size s
        (ap (λ (n : ℕ). phys_address n (block_meta_offset lblock)) st.staged.scratch) (omega arith)
        (omega arith) erased st
