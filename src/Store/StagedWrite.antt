-- ===== src/Store/StagedWrite.antt =====
-- What `stage_object` puts into the scratch metadata block, for an object in block 0.
use tfm_demo.Prelude.{
  ℕ, ◌+◌, ◌≤◌, ◌<◌, ◌≡◌, ◌≢◌, ◌⊎◌, ◌==◌, if◌then◌else◌, sym, ap, subst, ◌∙◌, arith, inl, inr, word,
  if_eq, if_ne,
}
use native.Mathlib.Decide.{dec_lt, ℕ_discrete}
use tfm_demo.AuditLog.Buffer.{Bytes}
use tfm_demo.Store.Layout.{
  block_size, block_metadata_size, assetmeta_size, num_assets, num_active_dblocks,
  block_meta_offset, object_meta_offset, all_metadata_size,
}
use tfm_demo.Store.Effects.{Storage}
use tfm_demo.Store.Flash.{Driver, IsFlash}
use tfm_demo.Store.Meta.{AssetMeta, of_assetmeta, of_block_metadata}
use tfm_demo.Store.Write.{stage_object}
use tfm_demo.Store.Ends.{Ends, Ends-bind, Ends-done}
use tfm_demo.Store.Staged.{Stage, HasMetaBlocks, blank, block_entry, object_entry, active_of, Fails}
use tfm_demo.Store.Entries.{to_assetmeta_agree, to_block_metadata_agree}
use tfm_demo.Store.Bytes.{to_assetmeta-of_assetmeta, to_block_metadata-of_block_metadata}
use tfm_demo.Store.Staging.{
  put_object, put_block, put_object-inside, put_object-outside, put_block-inside, put_block-outside,
  update_object-Stage, update_block-Stage,
}
use tfm_demo.Store.Scratch.{mblock_update_scratch_block_meta}
use tfm_demo.Store.StagedObjects.{ObjectsCopied, copy_objects-Stage}
use tfm_demo.Store.StagedBlocks.{BlocksCopied, copy_blocks-Stage}
use tfm_demo.Store.StagedFront.{moved_block0}
use tfm_demo.Store.StagedData.{DataStaged, dblock_update_scratch-DataStaged}
use tfm_demo.Store.Reserve.{aligned}
use tfm_demo.Store.Created.{located}

-- The tables of `old` with entry `i` replaced by `m`, in block `metablock`, and the data behind the
-- tables with those of the object from the buffer.
pub record IsRewritten (old new buf : Bytes) (metablock i : ℕ) (m : AssetMeta) : Type 0 where
  pub objects :
      (k : ℕ) → k < num_assets → object_entry new k ≡ (if k == i then m else object_entry old k)
  pub blocks :
      (k : ℕ) → k < num_active_dblocks → block_entry new k ≡ located metablock k (block_entry old k)
  pub written : (k : ℕ) → k < m.cur_size → new (m.data_index + k) ≡ buf k
  pub kept :
      (o : ℕ)
      → all_metadata_size ≤ o
      → o + (block_entry old 0).free_size < block_size
      → (o < m.data_index) ⊎ (m.data_index + m.cur_size ≤ o)
      → new o ≡ old o

module _ (d : Driver) (laws : IsFlash d) (before : Storage) (apart : HasMetaBlocks before) (i : ℕ)
    (m : AssetMeta) (buf : Bytes) (small : i < num_assets) where
  -- The two entries that change.
  second : Bytes → Bytes
  second b = put_object i m (put_block 0 (moved_block0 before) b)

  module _ {s1 : Storage}
      (c : DataStaged d laws before apart
        (block_entry (active_of before) 0)
        buf
        m.data_index
        m.cur_size
        s1) where
    second-blank :
        (o : ℕ)
        → object_meta_offset 0 ≤ o
        → o < all_metadata_size
        → (o < object_meta_offset i) ⊎ (object_meta_offset i + assetmeta_size ≤ o)
        → second c.after o ≡ blank o
    unfolding second
    second-blank o l h out =
        put_object-outside i m _ o out
        ∙ put_block-outside 0 _ c.after o (inr (omega arith))
        ∙ c.front o h

    module _ {s2 s3 : Storage} (bc : BlocksCopied d laws before apart 0 (second c.after) s2)
        (oc : ObjectsCopied d laws before apart i bc.after s3) where
      second-data : (o : ℕ) → all_metadata_size ≤ o → second c.after o ≡ c.after o
      unfolding second
      second-data o l =
          put_object-outside i m _ o (inr (omega (arith, l, small)))
          ∙ put_block-outside 0 (moved_block0 before) c.after o (inr (omega (arith, l)))

      same_data : (o : ℕ) → all_metadata_size ≤ o → o < block_size → oc.after o ≡ c.after o
      same_data o l h =
          oc.behind o l (omega (arith, h)) ∙ bc.behind o (omega (arith, l)) ∙ second-data o l

      new_entry :
          (x : ℕ) → x < assetmeta_size → oc.after (object_meta_offset i + x) ≡ of_assetmeta m x
      unfolding second
      new_entry x h =
          oc.itself _ (omega arith) (omega arith)
          ∙ bc.behind _ (omega arith)
          ∙ put_object-inside i m _ _ (omega arith) (omega arith)
          ∙ ap (of_assetmeta m) (omega arith)

      old_entry :
          (k x : ℕ)
          → k < num_assets
          → k ≢ i
          → x < assetmeta_size
          → oc.after (object_meta_offset k + x) ≡ active_of before (object_meta_offset k + x)
      old_entry k x lt ne h = elim (dec_lt k i) [
        | yes a ↦ oc.lower _ (omega arith) (omega arith)
        | no a ↦ oc.upper _ (omega (arith, ne)) (omega arith)
      ]

      zeroth_block :
          (x : ℕ)
          → x < block_metadata_size
          → oc.after (block_meta_offset 0 + x) ≡ of_block_metadata (moved_block0 before) x
      unfolding second
      zeroth_block x h =
          oc.below _ (omega arith) (omega arith)
          ∙ bc.itself _ (omega arith) (omega arith)
          ∙ put_object-outside i m _ _ (inl (omega arith))
          ∙ put_block-inside 0 _ c.after _ (omega arith) (omega arith)
          ∙ ap (of_block_metadata (moved_block0 before)) (omega arith)

      old_block :
          (k x : ℕ)
          → k < num_active_dblocks
          → k ≢ 0
          → x < block_metadata_size
          → oc.after (block_meta_offset k + x) ≡ active_of before (block_meta_offset k + x)
      old_block k x lt nz h =
          oc.below _ (omega (arith, nz)) (omega arith)
          ∙ bc.others _ (omega (arith, nz)) (omega arith) (inr (omega (arith, nz)))

      stage_object-IsRewritten :
          all_metadata_size ≤ m.data_index
          → m.data_index + m.cur_size + (block_entry (active_of before) 0).free_size ≤ block_size
          → m.lblock < word
          → m.data_index < word
          → m.cur_size < word
          → m.max_size < word
          → m.unique_id < word
          → IsRewritten (active_of before) oc.after buf before.scratch_metablock i m
      stage_object-IsRewritten lo hi a b e f g = record {
        objects = λ k lt. elim (ℕ_discrete k i) [
          | yes eq ↦
              ap (object_entry oc.after) eq
              ∙ to_assetmeta-of_assetmeta _ m a b e f g new_entry
              ∙ sym (if_eq _ _ eq)
          | no ne ↦ to_assetmeta_agree _ _ (λ x h. old_entry k x lt ne h) ∙ sym (if_ne _ _ ne)
        ];
        blocks = λ k lt. elim (ℕ_discrete k 0) [
          | yes z ↦
              ap (block_entry oc.after) z
              ∙ to_block_metadata-of_block_metadata _ (moved_block0 before) (omega arith)
                  (omega arith) (omega arith) zeroth_block
              ∙ ap
                  (λ (n : ℕ). located before.scratch_metablock n (block_entry (active_of before) n))
                  (sym z)
          | no nz ↦ to_block_metadata_agree _ _ (λ x h. old_block k x lt nz h) ∙ sym (if_ne _ _ nz)
        ];
        written = λ k l.
            same_data _ (omega (arith, lo)) (omega (arith, hi))
            ∙ c.written _ (omega arith) (omega arith)
            ∙ ap buf (omega arith);
        kept = λ o l h out. same_data o l (omega arith) ∙ (elim out [
          | inl x ↦ c.lower o l (omega (arith, lo))
          | inr y ↦ c.upper o y (omega (arith, hi))
        ]);
      }

  -- From an erased scratch block, with a program unit of one byte.
  pub stage_object-Stage :
      (s : Storage)
      → (block_entry (active_of before) 0).data_start ≡ all_metadata_size
      → (block_entry (active_of before) 0).phys_id ≡ before.active_metablock
      → all_metadata_size ≤ m.data_index
      → m.data_index + m.cur_size + (block_entry (active_of before) 0).free_size ≤ block_size
      → m.lblock ≡ 0
      → m.max_size < word
      → m.unique_id < word
      → s.buf_plain_text ≡ buf
      → Stage before blank s
      → Ends
          (stage_object d i m (block_entry (active_of before) 0) s)
          (λ _ s'.
            (new : Bytes) × (Stage before new s')
            × (IsRewritten (active_of before) new buf before.scratch_metablock i m))
          (Fails d before)
  unfolding stage_object second
  stage_object-Stage s start here lo hi zeroth e32 u32 same_buf st =
      simp (zeroth, aligned m.cur_size (omega (arith, hi)), same_buf)
        (Ends-bind _ _
          (dblock_update_scratch-DataStaged d laws before apart _ buf m.data_index m.cur_size start
            here lo hi s st)
          λ _ s1 c.
            Ends-bind _ _
              (subst
                (λ (n : ℕ).
                  Ends
                    (mblock_update_scratch_block_meta d 0
                      (record (block_entry (active_of before) 0) { phys_id = n }) s1)
                    (λ _. Stage before (put_block 0 (moved_block0 before) c.after))
                    (Fails d before))
                (sym c.stage.staged.scratch)
                (update_block-Stage d laws before apart c.after 0 (moved_block0 before) s1
                  (omega arith) (λ o a b. c.front o (omega arith)) c.stage))
              λ _ s2 t2.
                Ends-bind _ _
                  (update_object-Stage d laws before apart _ i m s2 small
                    (λ o a b.
                      put_block-outside 0 _ c.after o (inr (omega arith)) ∙ c.front o (omega arith))
                    t2)
                  λ _ s3 t3.
                    Ends-bind _ _
                      (copy_blocks-Stage d laws before apart (second c.after) 0 s3 (omega arith)
                        (λ o a b out.
                          put_object-outside i m _ o (inl (omega arith))
                          ∙ put_block-outside 0 _ c.after o out
                          ∙ c.front o (omega arith))
                        t3)
                      λ _ s4 bc.
                        Ends-bind _ _
                          (copy_objects-Stage d laws before apart bc.after i s4 small
                            (λ o a b.
                              bc.behind o a ∙ second-blank c o a (omega arith) (inl (omega arith)))
                            (λ o a b.
                              bc.behind o (omega arith)
                              ∙ second-blank c o (omega arith) (omega arith) (inr (omega arith)))
                            bc.stage)
                          λ _ s5 oc. Ends-done _ s5 (
                            oc.after,
                            oc.stage,
                            stage_object-IsRewritten c bc oc lo hi (omega (arith, zeroth))
                                (omega (arith, hi)) (omega (arith, hi)) e32 u32,
                          ))
