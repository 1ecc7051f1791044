-- ===== src/Store/StagedBlocks.antt =====
-- The copy of the table of blocks into the scratch metadata block, but for one entry, and of the
-- data that lie behind the metadata.
use tfm_demo.Prelude.{
  ℕ, ◌+◌, ◌-◌, ◌≤◌, ◌<◌, ◌≡◌, ◌≢◌, ◌==◌, not, refl, subst, ap, ◌∙◌, arith, inl, inr, sub32,
}
use tfm_demo.AuditLog.Buffer.{Bytes}
use tfm_demo.Store.Layout.{
  block_size, header_size, block_metadata_size, block_meta_offset, object_meta_offset,
  all_metadata_size,
}
use tfm_demo.Store.Effects.{Storage}
use tfm_demo.Store.Flash.{Driver, IsFlash}
use tfm_demo.Store.Meta.{BlockMetadata, of_block_metadata}
use tfm_demo.Store.Scratch.{mblock_copy_remaining_block_meta, mblock_migrate_data_to_scratch}
use tfm_demo.Store.Ends.{Ends, Ends-bind, Ends-weaken, Ends-when}
use tfm_demo.Store.Staged.{
  Stage, HasMetaBlocks, patch, patch-inside, patch-outside, blank, Agree, Blank, block_entry,
  active_of, Fails,
}
use tfm_demo.Store.Entries.{IsBlockMeta}
use tfm_demo.Store.Staging.{read_block_metadata-Stage, move-Stage}
use tfm_demo.Store.StagedFront.{Beside, moved_block0, FrontCopied, copy_blocks_before-Stage}

module _ (d : Driver) (laws : IsFlash d) (before : Storage) (apart : HasMetaBlocks before) where
  -- The entries other than that of `lblock` are there, the rest is as it was.
  pub record BlocksCopied (lblock : ℕ) (contents : Bytes) (now : Storage) : Type 0 where
    pub after : Bytes
    pub stage : Stage before after now
    pub zeroth :
        (o : ℕ)
        → lblock ≢ 0
        → header_size ≤ o
        → o < header_size + block_metadata_size
        → after o ≡ of_block_metadata (moved_block0 before) (o - header_size)
    pub others :
        (o : ℕ)
        → header_size + block_metadata_size ≤ o
        → o < object_meta_offset 0
        → Beside lblock o
        → after o ≡ active_of before o
    pub itself : Agree (block_meta_offset lblock) block_metadata_size after contents
    pub behind : (o : ℕ) → object_meta_offset 0 ≤ o → after o ≡ contents o

  pub copy_blocks-Stage :
      (contents : Bytes) (lblock : ℕ) (s : Storage)
      → lblock < 3
      → ((o : ℕ)
          → header_size ≤ o
          → o < object_meta_offset 0
          → Beside lblock o
          → contents o ≡ blank o)
      → Stage before contents s
      → Ends
          (mblock_copy_remaining_block_meta d lblock s)
          (λ _. BlocksCopied lblock contents)
          (Fails d before)
  unfolding mblock_copy_remaining_block_meta
  copy_blocks-Stage contents lblock s lt erased st =
      Ends-bind _ _
        (Ends-when (not (lblock == 0)) _ s
          (λ h.
            copy_blocks_before-Stage d laws before apart contents _ _ lblock s st.staged.scratch
              st.staged.active (ground (arith, h)) lt (λ o a b. erased o a (omega arith) (inl b))
              st)
          (λ h. at_zero (ground (arith, h))))
        λ _ s1 f.
          Ends-weaken _
            (move-Stage d laws before apart f.after _ _ end left s1 st.staged.scratch
              st.staged.active (omega arith) (omega arith)
              (λ o a b. f.rest o (omega arith) ∙ erased o (omega arith) (omega arith) (inr a))
              f.stage)
            λ _ s2 q. record {
              after = patch end left (active_of before) f.after;
              stage = q;
              zeroth = λ o ne a b.
                  patch-outside _ _ _ f.after o (inl (omega (arith, positive ne)))
                  ∙ f.zeroth o ne a b;
              others = λ o a b out. beside f o a b out;
              itself = λ o a b.
                  patch-outside _ _ _ f.after o (inl (omega arith)) ∙ f.rest o (omega arith);
              behind =
                  λ o a. patch-outside _ _ _ f.after o (inr (omega arith)) ∙ f.rest o (omega arith);
            }
    where
      end : ℕ
      end = block_meta_offset (lblock + 1)

      left : ℕ
      left = sub32 (object_meta_offset 0) end

      positive : lblock ≢ 0 → 0 < lblock
      positive ne = omega (arith, ne)

      at_zero : lblock ≡ 0 → FrontCopied d laws before apart lblock contents s
      at_zero e = record {
        after = contents;
        stage = st;
        zeroth = λ o ne a b. absurd (ne e);
        between = λ o a b. absurd (omega (arith, e));
        rest = λ o a. refl;
      }

      beside :
          {s1 : Storage} (f : FrontCopied d laws before apart lblock contents s1) (o : ℕ)
          → header_size + block_metadata_size ≤ o
          → o < object_meta_offset 0
          → Beside lblock o
          → patch end left (active_of before) f.after o ≡ active_of before o
      beside f o a b (inl h) = patch-outside _ _ _ f.after o (inl (omega arith)) ∙ f.between o a h
      beside f o a b (inr h) = patch-inside _ _ _ f.after o h (omega arith)

  data_start-eq :
      (m : BlockMetadata) → IsBlockMeta m → m.phys_id ≤ 1 → m.data_start ≡ all_metadata_size
  data_start-eq m h le = ground (arith, h.start)

  -- The data behind the metadata.
  pub migrate-Stage :
      (contents : Bytes) (s : Storage)
      → (block_entry (active_of before) 0).phys_id ≤ 1
      → Blank all_metadata_size (block_size - all_metadata_size) contents
      → Stage before contents s
      → Ends
          (mblock_migrate_data_to_scratch d s)
          (λ _. Stage before (
            patch all_metadata_size
              (block_size - all_metadata_size - (block_entry (active_of before) 0).free_size)
              (active_of before)
              contents))
          (Fails d before)
  unfolding mblock_migrate_data_to_scratch
  migrate-Stage contents s meta erased st =
      Ends-bind _ _ (read_block_metadata-Stage d laws before apart contents 0 s (omega arith) st)
        λ m s1 r.
          let start : m.data_start ≡ all_metadata_size =
            data_start-eq m r.1 (omega (arith, ap (λ (x : BlockMetadata). x.phys_id) r.2)) in
          let same : sub32 (sub32 block_size m.data_start) m.free_size ≡ data_size =
            omega (arith, start, r.1.room, ap (λ (x : BlockMetadata). x.free_size) r.2) in
          Ends-weaken _
            (move-Stage d laws before apart contents _ _ m.data_start
              (sub32 (sub32 block_size m.data_start) m.free_size) s1 st.staged.scratch
              st.staged.active (omega (arith, start)) (omega (arith, start, same))
              (λ o a b. erased o (omega (arith, start)) (omega (arith, start, same))) r.0)
            λ _ s2 q. subst (λ (c : Bytes). Stage before c s2) (cc (start, same)) q
    where
      data_size : ℕ
      data_size = block_size - all_metadata_size - (block_entry (active_of before) 0).free_size
