-- ===== src/Store/StagedObjects.antt =====
-- The copy of the table of objects into the scratch metadata block, but for one entry.
use tfm_demo.Prelude.{ℕ, false, ◌+◌, ◌-◌, ◌*◌, ◌%◌, ◌≤◌, ◌<◌, ◌≡◌, ltb, ◌∙◌, arith, inl, inr, word}
use tfm_demo.AuditLog.Buffer.{Bytes}
use tfm_demo.Store.Layout.{
  block_size, header_size, block_metadata_size, assetmeta_size, num_assets, object_meta_offset,
  all_metadata_size,
}
use tfm_demo.Store.Effects.{Storage}
use tfm_demo.Store.Flash.{Driver, IsFlash}
use tfm_demo.Store.Scratch.{mblock_copy_remaining_object_meta}
use tfm_demo.Store.Ends.{Ends, Ends-bind, Ends-weaken, Ends-when}
use tfm_demo.Store.Staged.{
  Stage, HasMetaBlocks, Agree, Blank, patch, patch-inside, patch-outside, active_of, Fails,
}
use tfm_demo.Store.Staging.{move-Stage}

module _ (d : Driver) (laws : IsFlash d) (before : Storage) (apart : HasMetaBlocks before) where
  -- Behind the header, the objects' table but for one entry is the active block's; the rest is as
  -- it was.
  pub record ObjectsCopied (idx : ℕ) (contents : Bytes) (now : Storage) : Type 0 where
    pub after : Bytes
    pub stage : Stage before after now
    pub lower : Agree (object_meta_offset 0) (idx * assetmeta_size) after (active_of before)
    pub upper :
        Agree
          (object_meta_offset (idx + 1))
          ((num_assets - 1 - idx) * assetmeta_size)
          after
          (active_of before)
    pub itself : Agree (object_meta_offset idx) assetmeta_size after contents
    pub below : Agree header_size (3 * block_metadata_size) after contents
    pub behind : Agree all_metadata_size (block_size - all_metadata_size) after contents

  pub copy_objects-Stage :
      (contents : Bytes) (idx : ℕ) (s : Storage)
      → idx < num_assets
      → Blank (object_meta_offset 0) (idx * assetmeta_size) contents
      → Blank (object_meta_offset (idx + 1)) ((num_assets - 1 - idx) * assetmeta_size) contents
      → Stage before contents s
      → Ends
          (mblock_copy_remaining_object_meta d idx s)
          (λ _. ObjectsCopied idx contents)
          (Fails d before)
  unfolding mblock_copy_remaining_object_meta
  copy_objects-Stage contents idx s lt e1 e2 st =
      Ends-bind _ _
        (move-Stage d laws before apart contents _ _ (object_meta_offset 0)
          (idx * assetmeta_size % word) s st.staged.scratch st.staged.active (omega arith)
          (omega arith) first st)
        λ _ s1 q.
          Ends-when (ltb (object_meta_offset (idx + 1)) (object_meta_offset num_assets)) _ s1
            (λ h.
              Ends-weaken _
                (move-Stage d laws before apart c1 _ _ (object_meta_offset (idx + 1))
                  (object_meta_offset num_assets - object_meta_offset (idx + 1)) s1
                  st.staged.scratch st.staged.active (omega arith) (omega arith) room q)
                λ _ s2 r. record {
                  after =
                      patch (object_meta_offset (idx + 1))
                        (object_meta_offset num_assets - object_meta_offset (idx + 1))
                        (active_of before) c1;
                  stage = r;
                  lower = λ o a b. patch-outside _ _ _ c1 o (inl (omega arith)) ∙ low o a b;
                  upper = λ o a b. patch-inside _ _ _ c1 o (omega arith) (omega arith);
                  itself = λ o a b. patch-outside _ _ _ c1 o (inl (omega arith)) ∙ self o a b;
                  below = λ o a b. patch-outside _ _ _ c1 o (inl (omega arith)) ∙ under o a b;
                  behind = λ o a b. patch-outside _ _ _ c1 o (inr (omega arith)) ∙ over o a b;
                })
            λ h. record {
              after = c1;
              stage = q;
              lower = low;
              upper = λ o a b. absurd (omega (arith, no_room h));
              itself = self;
              below = under;
              behind = over;
            }
    where
      c1 : Bytes
      c1 = patch (object_meta_offset 0) (idx * assetmeta_size % word) (active_of before) contents

      first : Blank (object_meta_offset 0) (idx * assetmeta_size % word) contents
      first o a b = e1 o (omega arith) (omega arith)

      room :
          Blank
            (object_meta_offset (idx + 1))
            (object_meta_offset num_assets - object_meta_offset (idx + 1))
            c1
      room o a b =
          patch-outside _ _ _ contents o (inr (omega arith)) ∙ e2 o (omega arith) (omega arith)

      low : Agree (object_meta_offset 0) (idx * assetmeta_size) c1 (active_of before)
      low o a b = patch-inside _ _ _ contents o (omega arith) (omega arith)

      self : Agree (object_meta_offset idx) assetmeta_size c1 contents
      self o a b = patch-outside _ _ _ contents o (inr (omega arith))

      under : Agree header_size (3 * block_metadata_size) c1 contents
      under o a b = patch-outside _ _ _ contents o (inl (omega arith))

      over : Agree all_metadata_size (block_size - all_metadata_size) c1 contents
      over o a b = patch-outside _ _ _ contents o (inr (omega arith))

      no_room :
          ltb (object_meta_offset (idx + 1)) (object_meta_offset num_assets) ≡ false
          → object_meta_offset num_assets ≤ object_meta_offset (idx + 1)
      no_room h = ground arith
