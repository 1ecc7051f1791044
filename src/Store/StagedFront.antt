-- ===== src/Store/StagedFront.antt =====
-- The copy of the entries in front of that of a block into the scratch metadata block.
use tfm_demo.Prelude.{
  ℕ, false, ◌+◌, ◌-◌, ◌*◌, ◌%◌, ◌≤◌, ◌<◌, ◌≡◌, ◌≢◌, ◌⊎◌, ltb, ap, ◌∙◌, arith, inl, inr, word, sub32,
}
use tfm_demo.AuditLog.Buffer.{Bytes}
use tfm_demo.Store.Layout.{header_size, block_metadata_size, block_meta_offset}
use tfm_demo.Store.Effects.{Storage}
use tfm_demo.Store.Flash.{Driver, IsFlash}
use tfm_demo.Store.Meta.{BlockMetadata, of_block_metadata}
use tfm_demo.Store.Scratch.{copy_blocks_before}
use tfm_demo.Store.Ends.{Ends, Ends-bind, Ends-weaken, Ends-when, Ends-renamed}
use tfm_demo.Store.Staged.{
  Stage, HasMetaBlocks, block_of, patch, patch-inside, patch-outside, blank, block_entry, active_of,
  Fails,
}
use tfm_demo.Store.Staging.{
  put_block, put_block-inside, put_block-outside, read_block_metadata-Stage, move-Stage,
  update_block-Stage,
}

-- Not within the entry of the block.
abbrev pub Beside : ℕ → ℕ → Type 0
Beside lblock o = (o < block_meta_offset lblock) ⊎ (block_meta_offset (lblock + 1) ≤ o)

-- Block 0 under its new place.
abbrev pub moved_block0 : Storage → BlockMetadata
moved_block0 s = record (block_entry (block_of s s.active_metablock) 0) {
  phys_id = s.scratch_metablock;
}

module _ (d : Driver) (laws : IsFlash d) (before : Storage) (apart : HasMetaBlocks before) where
  -- The entries in front of that of `lblock` are there, the rest is as it was.
  pub record FrontCopied (lblock : ℕ) (contents : Bytes) (now : Storage) : Type 0 where
    pub after : Bytes
    pub stage : Stage before after now
    pub zeroth :
        (o : ℕ)
        → lblock ≢ 0
        → header_size ≤ o
        → o < header_size + block_metadata_size
        → after o ≡ of_block_metadata (moved_block0 before) (o - header_size)
    pub between :
        (o : ℕ)
        → header_size + block_metadata_size ≤ o
        → o < block_meta_offset lblock
        → after o ≡ active_of before o
    pub rest : (o : ℕ) → block_meta_offset lblock ≤ o → after o ≡ contents o

  pub copy_blocks_before-Stage :
      (contents : Bytes) (dst src lblock : ℕ) (s : Storage)
      → dst ≡ before.scratch_metablock
      → src ≡ before.active_metablock
      → 0 < lblock
      → lblock < 3
      → ((o : ℕ) → header_size ≤ o → o < block_meta_offset lblock → contents o ≡ blank o)
      → Stage before contents s
      → Ends
          (copy_blocks_before d dst src lblock s)
          (λ _. FrontCopied lblock contents)
          (Fails d before)
  unfolding copy_blocks_before
  copy_blocks_before-Stage contents dst src lblock s to from pos lt erased st =
      Ends-bind _ _
        (Ends-renamed _ _
          (read_block_metadata-Stage d laws before apart contents 0 s (omega arith) st))
        λ m s1 r.
          Ends-bind _ _
            (Ends-renamed _ _ (
              update_block-Stage d laws before apart contents 0 (record m { phys_id = dst }) s1
                (omega arith) (λ o a b. erased o (omega arith) (omega arith)) r.0))
            λ _ s2 q.
              Ends-when (ltb 0 (sub32 lblock 1 * block_metadata_size % word)) _ s2
                (λ h.
                  Ends-weaken _
                    (move-Stage d laws before apart (first m) dst src
                      (header_size + block_metadata_size)
                      (sub32 lblock 1 * block_metadata_size % word) s2 to from (omega arith)
                      (omega arith) (λ o a b. unput m o a ∙ erased o (omega arith) (omega arith)) q)
                    λ _ s3 t. record {
                      after =
                          patch (header_size + block_metadata_size)
                            (sub32 lblock 1 * block_metadata_size % word) (active_of before)
                            (first m);
                      stage = t;
                      zeroth = λ o ne a b.
                          patch-outside _ _ _ (first m) o (inl (omega arith)) ∙ put m r.2 o a b;
                      between = λ o a b. patch-inside _ _ _ (first m) o (omega arith) (omega arith);
                      rest = λ o a.
                          patch-outside _ _ _ (first m) o (inr (omega arith))
                          ∙ unput m o (omega arith);
                    })
                λ h. record {
                  after = first m;
                  stage = q;
                  zeroth = λ o ne a b. put m r.2 o a b;
                  between = λ o a b. absurd (omega (arith, no_room h));
                  rest = λ o a. unput m o (omega arith);
                }
    where
      first : BlockMetadata → Bytes
      first m = put_block 0 (record m { phys_id = dst }) contents

      unput :
          (m : BlockMetadata) (o : ℕ)
          → header_size + block_metadata_size ≤ o
          → first m o ≡ contents o
      unput m o a = put_block-outside 0 _ contents o (inr (omega arith))

      put :
          (m : BlockMetadata)
          → m ≡ block_entry (active_of before) 0
          → (o : ℕ) → header_size ≤ o
          → o < header_size + block_metadata_size
          → first m o ≡ of_block_metadata (moved_block0 before) (o - header_size)
      put m e o a b =
          put_block-inside 0 _ contents o (omega arith) (omega arith)
          ∙ ap (λ (x : BlockMetadata). of_block_metadata x (o - header_size)) (cc (e, to))

      no_room : ltb 0 (sub32 lblock 1 * block_metadata_size % word) ≡ false → lblock ≤ 1
      no_room h = ground arith
