-- ===== src/Store/StagedData.antt =====
-- The data of block 0 in the scratch metadata block, with a part of them from a buffer.
use tfm_demo.Prelude.{
  ℕ, ◌+◌, ◌-◌, ◌≤◌, ◌<◌, ◌≡◌, ◌⊎◌, ltb, false, add32, sub32, ◌∙◌, arith, inl, inr, refl,
}
use tfm_demo.AuditLog.Buffer.{Bytes}
use tfm_demo.Store.Layout.{block_size, all_metadata_size}
use tfm_demo.Store.Effects.{Storage}
use tfm_demo.Store.Flash.{Driver, IsFlash, phys_address, write}
use tfm_demo.Store.Meta.{BlockMetadata}
use tfm_demo.Store.Scratch.{dblock_update_scratch}
use tfm_demo.Store.Ends.{Ends, Ends-bind, Ends-weaken, Ends-when}
use tfm_demo.Store.Staged.{
  Stage, HasMetaBlocks, Agree, patch, patch-inside, patch-outside, blank, active_of, write-Stage,
  Fails,
}
use tfm_demo.Store.Staging.{move-Stage}

module _ (d : Driver) (laws : IsFlash d) (before : Storage) (apart : HasMetaBlocks before)
    (bm : BlockMetadata) (buf : Bytes) (index size : ℕ) where
  -- `size` bytes of the buffer at `index`, around them the data of the active block.
  pub record DataStaged (now : Storage) : Type 0 where
    pub after : Bytes
    pub stage : Stage before after now
    pub front : (o : ℕ) → o < all_metadata_size → after o ≡ blank o
    pub written : Agree index size after (λ o. buf (o - index))
    pub lower : Agree all_metadata_size (index - all_metadata_size) after (active_of before)
    pub upper :
        Agree (index + size) (block_size - bm.free_size - (index + size)) after (active_of before)

  module _ (start : bm.data_start ≡ all_metadata_size) (here : bm.phys_id ≡ before.active_metablock)
      (lo : all_metadata_size ≤ index) (hi : index + size + bm.free_size ≤ block_size) where
    first : Bytes
    first = patch index size (λ o. buf (o - index)) blank

    -- The data in front of the new ones, if any, are copied too.
    record FrontStaged (now : Storage) : Type 0 where
      pub after : Bytes
      pub stage : Stage before after now
      pub front : (o : ℕ) → o < all_metadata_size → after o ≡ blank o
      pub copied : Agree all_metadata_size (index - all_metadata_size) after (active_of before)
      pub behind : (o : ℕ) → index ≤ o → after o ≡ first o

    first-blank : (o : ℕ) → (o < index) ⊎ (index + size ≤ o) → first o ≡ blank o
    unfolding first
    first-blank o out = patch-outside index size _ blank o out

    pub dblock_update_scratch-DataStaged :
        (s : Storage)
        → Stage before blank s
        → Ends (dblock_update_scratch d 0 bm buf index size s) (λ _. DataStaged) (Fails d before)
    unfolding dblock_update_scratch write first
    dblock_update_scratch-DataStaged s st =
        Ends-bind _ _
          (write-Stage d laws before apart blank buf _ index size s place (omega (arith, lo))
            (omega (arith, hi)) (λ o a b. refl) st)
          λ _ s1 t.
            Ends-bind _ _
              (Ends-when (ltb bm.data_start index) _ s1
                (λ h.
                  Ends-weaken _
                    (move-Stage d laws before apart first _ _ bm.data_start (index - bm.data_start)
                      s1 st.staged.scratch here (omega (arith, start))
                      (omega (arith, start, lo, hi)) (λ o a b. first-blank o (inl (less o a b))) t)
                    λ _ s2 q. moved s2 q)
                (λ h. record {
                  after = first;
                  stage = t;
                  front = λ o l. first-blank o (inl (omega (arith, lo)));
                  copied = λ o a b. absurd (none o a b h);
                  behind = λ o l. refl;
                }))
              λ _ s2 f.
                Ends-weaken _
                  (move-Stage d laws before apart f.after _ _ (add32 index size)
                    (sub32 (sub32 block_size (add32 index size)) bm.free_size) s2 st.staged.scratch
                    here (omega (arith, lo, hi)) (omega (arith, hi))
                    (λ o a b.
                      f.behind o (omega (arith, hi)) ∙ first-blank o (inr (omega (arith, hi))))
                    f.stage)
                  λ _ s3 q. record {
                    after =
                        patch (add32 index size)
                          (sub32 (sub32 block_size (add32 index size)) bm.free_size)
                          (active_of before) f.after;
                    stage = q;
                    front = λ o l.
                        patch-outside _ _ _ f.after o (inl (omega (arith, lo, hi))) ∙ f.front o l;
                    written = λ o a b.
                        patch-outside _ _ _ f.after o (inl (omega (arith, hi)))
                        ∙ f.behind o a
                        ∙ patch-inside index size _ blank o a b;
                    lower = λ o a b.
                        patch-outside _ _ _ f.after o (inl (omega (arith, hi))) ∙ f.copied o a b;
                    upper = λ o a b.
                        patch-inside _ _ _ f.after o (omega (arith, hi)) (omega (arith, hi));
                  }
      where
        place : phys_address s.scratch_metablock index ≡ phys_address before.scratch_metablock index
        place = omega (arith, st.staged.scratch)

        less : (o : ℕ) → bm.data_start ≤ o → o < bm.data_start + (index - bm.data_start) → o < index
        less o a b = omega (arith, start, lo)

        none :
            (o : ℕ)
            → all_metadata_size ≤ o
            → o < all_metadata_size + (index - all_metadata_size)
            → ltb bm.data_start index ≡ false
            → ⊥
        none o a b h = ground (arith, start, lo)

        moved :
            (s2 : Storage)
            → Stage before (patch bm.data_start (index - bm.data_start) (active_of before) first) s2
            → FrontStaged s2
        moved s2 q = record {
          after = patch bm.data_start (index - bm.data_start) (active_of before) first;
          stage = q;
          front = λ o l.
              patch-outside _ _ _ first o (inl (omega (arith, start)))
              ∙ first-blank o (inl (omega (arith, lo)));
          copied =
              λ o a b. patch-inside _ _ _ first o (omega (arith, start)) (omega (arith, start, lo));
          behind = λ o l. patch-outside _ _ _ first o (inr (omega (arith, start, lo)));
        }
