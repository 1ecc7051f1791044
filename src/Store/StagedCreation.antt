-- ===== src/Store/StagedCreation.antt =====
-- What `stage_tables` puts into the scratch metadata block.
use tfm_demo.Prelude.{
  ℕ, ◌+◌, ◌-◌, ◌≤◌, ◌<◌, ◌≡◌, ◌≢◌, ◌⊎◌, ◌==◌, if◌then◌else◌, refl, sym, ap, subst, ◌∙◌, arith, inl,
  inr, word, if_eq, if_ne,
}
use native.Mathlib.Decide.{dec_lt, ℕ_discrete}
use tfm_demo.AuditLog.Buffer.{Bytes}
use tfm_demo.Store.Layout.{
  block_size, block_metadata_size, assetmeta_size, num_assets, num_active_dblocks,
  block_meta_offset, object_meta_offset, all_metadata_size, flash_program_unit,
}
use tfm_demo.Store.Effects.{Storage}
use tfm_demo.Store.Flash.{Driver, IsFlash}
use tfm_demo.Store.Meta.{of_assetmeta, of_block_metadata}
use tfm_demo.Store.Validate.{get_aligned_flash_bytes}
use tfm_demo.Store.Tables.{Reserved}
use tfm_demo.Store.Scratch.{mblock_update_scratch_block_meta}
use tfm_demo.Store.Create.{stage_tables, new_object, moved_block_meta}
use tfm_demo.Store.Ends.{Ends, Ends-bind, Ends-weaken, Ends-renamed}
use tfm_demo.Store.Staged.{
  Stage, HasMetaBlocks, patch, patch-inside, patch-outside, blank, block_entry, object_entry,
  active_of, Fails,
}
use tfm_demo.Store.Entries.{to_assetmeta_agree, to_block_metadata_agree}
use tfm_demo.Store.Bytes.{to_assetmeta-of_assetmeta, to_block_metadata-of_block_metadata}
use tfm_demo.Store.Staging.{
  put_object, put_block, put_object-inside, put_object-outside, put_block-inside, put_block-outside,
  update_object-Stage, update_block-Stage,
}
use tfm_demo.Store.StagedObjects.{ObjectsCopied, copy_objects-Stage}
use tfm_demo.Store.StagedBlocks.{BlocksCopied, copy_blocks-Stage, migrate-Stage}
use tfm_demo.Store.Reserve.{IsReserved}
use tfm_demo.Store.StagedFront.{Beside, moved_block0}
use tfm_demo.Store.Created.{located, IsCreated}

module _ (d : Driver) (laws : IsFlash d) (before : Storage) (apart : HasMetaBlocks before) where
  module _ (uuid size j : ℕ) (r : Reserved) (small : j < num_assets) (uuid32 : uuid < word)
      (size32 : size < word)
      (reserved : IsReserved
        (active_of before)
        (get_aligned_flash_bytes flash_program_unit size)
        r) where
    first : Bytes
    first = put_object j (new_object r uuid size) blank

    second : Bytes
    second = put_block r.lblock (moved_block_meta r before.scratch_metablock) first

    data_size : ℕ
    data_size = block_size - all_metadata_size - (block_entry (active_of before) 0).free_size

    third : Bytes → Bytes
    third c = patch all_metadata_size data_size (active_of before) c

    module _ {s1 s2 : Storage} (oc : ObjectsCopied d laws before apart j second s1)
        (bc : BlocksCopied d laws before apart r.lblock oc.after s2) where
      front : (o : ℕ) → o < all_metadata_size → third bc.after o ≡ bc.after o
      unfolding third
      front o h = patch-outside _ _ _ bc.after o (inl h)

      objects_front :
          (o : ℕ) → object_meta_offset 0 ≤ o → o < all_metadata_size → third bc.after o ≡ oc.after o
      objects_front o l h = front o h ∙ bc.behind o l

      new_entry :
          (x : ℕ)
          → x < assetmeta_size
          → third bc.after (object_meta_offset j + x) ≡ of_assetmeta (new_object r uuid size) x
      unfolding second first
      new_entry x h =
          objects_front _ (omega arith) (omega arith)
          ∙ oc.itself _ (omega arith) (omega arith)
          ∙ put_block-outside r.lblock _ first _ (inr (omega (arith, reserved.block)))
          ∙ put_object-inside j _ blank _ (omega arith) (omega arith)
          ∙ ap (of_assetmeta (new_object r uuid size)) (omega arith)

      old_entry :
          (k x : ℕ)
          → k < num_assets
          → k ≢ j
          → x < assetmeta_size
          → third bc.after (object_meta_offset k + x) ≡ active_of before (object_meta_offset k + x)
      old_entry k x lt ne h = objects_front _ (omega arith) (omega arith) ∙ (elim (dec_lt k j) [
        | yes a ↦ oc.lower _ (omega arith) (omega arith)
        | no a ↦ oc.upper _ (omega (arith, ne)) (omega arith)
      ])

      new_block :
          (x : ℕ)
          → x < block_metadata_size
          → third bc.after (block_meta_offset r.lblock + x)
            ≡ of_block_metadata (moved_block_meta r before.scratch_metablock) x
      unfolding second
      new_block x h =
          front _ (omega (arith, reserved.block))
          ∙ bc.itself _ (omega arith) (omega arith)
          ∙ oc.below _ (omega (arith, reserved.block)) (omega (arith, reserved.block))
          ∙ put_block-inside r.lblock _ first _ (omega arith) (omega arith)
          ∙ ap (of_block_metadata (moved_block_meta r before.scratch_metablock)) (omega arith)

      zeroth_block :
          (x : ℕ)
          → r.lblock ≢ 0
          → x < block_metadata_size
          → third bc.after (block_meta_offset 0 + x) ≡ of_block_metadata (moved_block0 before) x
      zeroth_block x ne h =
          front _ (omega arith)
          ∙ bc.zeroth _ ne (omega arith) (omega arith)
          ∙ ap (of_block_metadata (moved_block0 before)) (omega arith)

      old_block :
          (k x : ℕ)
          → k < num_active_dblocks
          → k ≢ r.lblock
          → k ≢ 0
          → x < block_metadata_size
          → third bc.after (block_meta_offset k + x) ≡ active_of before (block_meta_offset k + x)
      old_block k x lt ne nz h =
          front _ (omega arith)
          ∙ bc.others _ (omega (arith, nz)) (omega arith) (elim (dec_lt k r.lblock) [
            | yes a ↦ inl (omega (arith, reserved.block))
            | no a ↦ inr (omega (arith, ne))
          ])

      index32 : r.data_index < word
      index32 = omega (arith, reserved.index)

      block32 :
          ((moved_block_meta r before.scratch_metablock).phys_id < word)
          × ((moved_block_meta r before.scratch_metablock).data_start < word)
          × ((moved_block_meta r before.scratch_metablock).free_size < word)
      block32 = ground (arith, apart, reserved.same_block, reserved.same_start, reserved.taken)

      objects_after :
          (k : ℕ)
          → k < num_assets
          → object_entry (third bc.after) k
            ≡ (if k == j then new_object r uuid size else object_entry (active_of before) k)
      objects_after k lt = elim (ℕ_discrete k j) [
        | yes e ↦
            ap (object_entry (third bc.after)) e
            ∙ to_assetmeta-of_assetmeta _ (new_object r uuid size) (omega (arith, reserved.block))
                (omega (arith, index32)) (omega arith) size32 uuid32 new_entry
            ∙ sym (if_eq _ _ e)
        | no ne ↦ to_assetmeta_agree _ _ (λ x h. old_entry k x lt ne h) ∙ sym (if_ne _ _ ne)
      ]

      blocks_after :
          (k : ℕ)
          → k < num_active_dblocks
          → block_entry (third bc.after) k
            ≡ located before.scratch_metablock k
                (if k == r.lblock then r.block_meta else block_entry (active_of before) k)
      blocks_after k lt = elim (ℕ_discrete k r.lblock) [
        | yes e ↦
            ap (block_entry (third bc.after)) e
            ∙ to_block_metadata-of_block_metadata _ (moved_block_meta r before.scratch_metablock)
                block32.0 block32.1 block32.2 new_block
            ∙ ap (λ (n : ℕ). located before.scratch_metablock n r.block_meta) (sym e)
            ∙ ap (located before.scratch_metablock k) (sym (if_eq _ _ e))
        | no ne ↦ elim (ℕ_discrete k 0) [
          | yes z ↦
              ap (block_entry (third bc.after)) z
              ∙ to_block_metadata-of_block_metadata _ (moved_block0 before) (omega arith)
                  (omega arith) (omega arith) (λ x h. zeroth_block x (λ e. ne (z ∙ sym e)) h)
              ∙ ap
                  (λ (n : ℕ). located before.scratch_metablock n (block_entry (active_of before) n))
                  (sym z)
              ∙ ap (located before.scratch_metablock k) (sym (if_ne _ _ ne))
          | no nz ↦
              to_block_metadata_agree _ _ (λ x h. old_block k x lt ne nz h)
              ∙ sym (if_ne _ _ nz)
              ∙ ap (located before.scratch_metablock k) (sym (if_ne _ _ ne))
        ]
      ]

      stage_tables-IsCreated :
          IsCreated (active_of before) (third bc.after) before.scratch_metablock uuid size j r
      unfolding third data_size
      stage_tables-IsCreated = record {
        objects = objects_after;
        blocks = blocks_after;
        contents = λ o l h. patch-inside _ _ _ bc.after o l (omega arith);
      }

    second-blank :
        (o : ℕ)
        → Beside r.lblock o
        → (o < object_meta_offset j) ⊎ (object_meta_offset j + assetmeta_size ≤ o)
        → second o ≡ blank o
    unfolding second first
    second-blank o (inl a) out =
        put_block-outside r.lblock _ first o (inl a) ∙ put_object-outside j _ blank o out
    second-blank o (inr b) out =
        put_block-outside r.lblock _ first o (inr (omega (arith, reserved.block)))
        ∙ put_object-outside j _ blank o out

    -- From an erased scratch block.
    pub stage_tables-Stage :
        (s : Storage)
        → (block_entry (active_of before) 0).phys_id ≤ 1
        → Stage before blank s
        → Ends
            (stage_tables d uuid size r j s)
            (λ _ s'.
              (new : Bytes) × (Stage before new s')
              × (IsCreated (active_of before) new before.scratch_metablock uuid size j r))
            (Fails d before)
    unfolding stage_tables first second third data_size
    stage_tables-Stage s meta st = Ends-renamed _ _ (
        Ends-bind _ _
          (update_object-Stage d laws before apart blank j (new_object r uuid size) s small
            (λ o a b. refl) st)
          λ _ s1 t1.
            Ends-bind _ _
              (subst
                (λ (n : ℕ).
                  Ends (mblock_update_scratch_block_meta d r.lblock (moved_block_meta r n) s1)
                    (λ _. Stage before second) (Fails d before))
                (sym t1.staged.scratch)
                (update_block-Stage d laws before apart first r.lblock _ s1 reserved.block
                  (λ o a b. put_object-outside j _ blank o (inl (omega (arith, reserved.block))))
                  t1))
              λ _ s2 t2.
                Ends-bind _ _
                  (copy_objects-Stage d laws before apart second j s2 small
                    (λ o a b.
                      second-blank o (inr (omega (arith, reserved.block))) (inl (omega arith)))
                    (λ o a b.
                      second-blank o (inr (omega (arith, reserved.block))) (inr (omega arith)))
                    t2)
                  λ _ s3 oc.
                    Ends-bind _ _
                      (copy_blocks-Stage d laws before apart oc.after r.lblock s3 reserved.block
                        (λ o a b out.
                          oc.below o a (omega arith) ∙ second-blank o out (inl (omega arith)))
                        oc.stage)
                      λ _ s4 bc.
                        Ends-weaken _
                          (migrate-Stage d laws before apart bc.after s4 meta
                            (λ o a b.
                              bc.behind o (omega arith)
                              ∙ oc.behind o a b
                              ∙ second-blank o (inr (omega (arith, reserved.block)))
                                  (inr (omega arith)))
                            bc.stage)
                          λ _ s5 t5. (third bc.after, t5, stage_tables-IsCreated oc bc))
