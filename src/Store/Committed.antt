-- ===== src/Store/Committed.antt =====
-- Making the scratch metadata block the active one: what the flash holds at each step.
use tfm_demo.Prelude.{ℕ, ◌+◌, ◌%◌, ◌≤◌, ◌<◌, ◌≡◌, ◌⊎◌, ap, ◌∙◌, arith, inl, inr}
use native.Mathlib.Decide.{dec_lt}
use tfm_demo.AuditLog.Buffer.{Bytes, byte_of}
use tfm_demo.Store.Layout.{
  block_size, header_size, scratch_idx_offset, fs_version_offset, swap_count_offset,
  flash_default_val, total_num_of_blocks,
}
use tfm_demo.Store.Effects.{Storage, Header}
use tfm_demo.Store.Flash.{Driver, IsFlash, phys_address}
use tfm_demo.Store.Meta.{of_header}
use tfm_demo.Store.Commit.{
  next_swap_count, count_up, meta_write_scratch_meta_header, meta_erase_scratch_blocks,
  meta_update_finalize,
}
use tfm_demo.Store.Tables.{on_header, swap_metablocks}
use tfm_demo.Store.Ends.{Ends, Ends-bind, Ends-weaken, Ends-loosen}
use tfm_demo.Store.Staged.{IsStaged, Stage, HasMetaBlocks, block_of}
use tfm_demo.Store.Bytes.{u32_at-byte_of}
use tfm_demo.Store.Touched.{Touched, Broken, write-Touched, erase-Touched}
use tfm_demo.Store.Kept.{
  OldKept, Committed, Committed-Touched, OldKept-Touched, of_header-scratch_idx,
}

module _ (d : Driver) (laws : IsFlash d) (before : Storage) (apart : HasMetaBlocks before)
    (erased : (o : ℕ)
      → o < header_size
      → block_of before before.scratch_metablock o ≡ flash_default_val)
    (data_hi : before.meta_block_header.scratch_idx < total_num_of_blocks) (new : Bytes) where
  old_kept : (s : Storage) → IsStaged before s → OldKept before s
  old_kept s st o h = st.kept _ (elim (dec_lt before.active_metablock before.scratch_metablock) [
    | yes a ↦ inl (omega arith)
    | no a ↦ inr (omega arith)
  ])

  -- The header is written, with the count that comes next.
  pub record IsHeaded (now : Storage) : Type 0 where
    pub active : now.active_metablock ≡ before.active_metablock
    pub scratch : now.scratch_metablock ≡ before.scratch_metablock
    pub header : now.meta_block_header ≡ count_up before.meta_block_header
    pub committed : Committed before new now
    pub old : OldKept before now

  pub write_header-IsHeaded :
      (s : Storage)
      → Stage before new s
      → Ends
          (meta_write_scratch_meta_header d s)
          (λ _. IsHeaded)
          (λ s'. OldKept before s' × Broken d)
  unfolding meta_write_scratch_meta_header of_header
  write_header-IsHeaded s st =
      Ends-bind _ _
        (Ends-loosen _ (write-Touched d laws s.scratch_metablock _ 0 swap_count_offset counted)
          λ s' f. (old2 s' f.0, f.1))
        λ _ s2 t.
          Ends-weaken _
            (Ends-loosen _ (write-Touched d laws s.scratch_metablock _ swap_count_offset 1 s2)
              λ s' f. (old3 s2 t.0 s' f.0, f.1))
            λ _ s3 u. record {
              active = u.0.active ∙ t.0.active ∙ st.staged.active;
              scratch = u.0.scratch ∙ t.0.scratch ∙ st.staged.scratch;
              header = u.0.header ∙ t.0.header ∙ ap count_up st.staged.header;
              committed = record {
                tables = λ o a b.
                    u.0.kept _ (inr (omega (arith, place)))
                    ∙ t.0.kept _ (inr (omega (arith, place)))
                    ∙ st.holds o a b;
                version =
                    u.0.kept _ (inl (omega (arith, place)))
                    ∙ ap s2.flash (omega (arith, place))
                    ∙ t.1 fs_version_offset (omega arith) (blank_at fs_version_offset (omega arith))
                    ∙ ap (λ (h : Header). h.fs_version % 256) st.staged.header;
                count =
                    ap s3.flash (omega (arith, place))
                    ∙ u.1 0 (omega arith) (
                        t.0.kept _ (inr (omega arith))
                        ∙ ap s.flash (omega arith)
                        ∙ blank_at swap_count_offset (omega arith))
                    ∙ ap (λ (h : Header). next_swap_count h.active_swap_count % 256)
                        st.staged.header;
                data_scratch =
                    u32_at-byte_of (block_of s3 before.scratch_metablock) scratch_idx_offset
                      s.meta_block_header.scratch_idx (omega (arith, data_hi, idx_same))
                      (λ k l. idx_byte s2 t.1 k l s3 u.0)
                    ∙ idx_same;
              };
              old = old3 s2 t.0 s3 u.0;
            }
    where
      counted : Storage
      counted = on_header count_up s

      place : s.scratch_metablock ≡ before.scratch_metablock
      place = st.staged.scratch

      idx_same : s.meta_block_header.scratch_idx ≡ before.meta_block_header.scratch_idx
      idx_same = ap (λ (h : Header). h.scratch_idx) st.staged.header

      blank_at :
          (k : ℕ)
          → k < header_size
          → s.flash (phys_address s.scratch_metablock 0 + k) ≡ flash_default_val
      blank_at k l =
          ap s.flash (omega (arith, place))
          ∙ st.staged.kept (phys_address before.scratch_metablock k) (inl (omega arith))
          ∙ erased k l

      idx_byte :
          (s2 : Storage)
          → ((k : ℕ)
              → k < swap_count_offset
              → counted.flash (phys_address s.scratch_metablock 0 + k) ≡ flash_default_val
              → s2.flash (phys_address s.scratch_metablock 0 + k)
                ≡ of_header counted.meta_block_header k)
          → (k : ℕ) → k < 4
          → (s3 : Storage) → Touched (phys_address s.scratch_metablock swap_count_offset) 1 s2 s3
          → block_of s3 before.scratch_metablock (scratch_idx_offset + k)
            ≡ byte_of s.meta_block_header.scratch_idx k
      idx_byte s2 t k l s3 u =
          u.kept _ (inl (omega (arith, place)))
          ∙ ap s2.flash (omega (arith, place))
          ∙ t (scratch_idx_offset + k) (omega arith)
              (blank_at (scratch_idx_offset + k) (omega arith))
          ∙ of_header-scratch_idx counted.meta_block_header k l

      old2 :
          (s2 : Storage)
          → Touched (phys_address s.scratch_metablock 0) swap_count_offset counted s2
          → OldKept before s2
      old2 s2 t =
          OldKept-Touched before s2 counted s.scratch_metablock 0 swap_count_offset apart
            (omega (arith, place)) (λ e. absurd (omega (arith, place))) (omega arith)
            (old_kept s st.staged) t

      old3 :
          (s2 : Storage)
          → Touched (phys_address s.scratch_metablock 0) swap_count_offset counted s2
          → (s3 : Storage) → Touched (phys_address s.scratch_metablock swap_count_offset) 1 s2 s3
          → OldKept before s3
      old3 s2 t s3 u =
          OldKept-Touched before s3 s2 s.scratch_metablock swap_count_offset 1 apart
            (omega (arith, place)) (λ e. absurd (omega (arith, place))) (omega arith) (old2 s2 t) u

  -- The new block is in use, complete and intact, and the old one is erased.
  pub record IsCommitted (now : Storage) : Type 0 where
    pub active : now.active_metablock ≡ before.scratch_metablock
    pub scratch : now.scratch_metablock ≡ before.active_metablock
    pub header : now.meta_block_header ≡ count_up before.meta_block_header
    pub committed : Committed before new now
    pub blank_old :
        (o : ℕ) → o < block_size → block_of now before.active_metablock o ≡ flash_default_val

  -- Where it stops, the old block is as it was or the new one is complete.
  abbrev pub OldOrNew : Storage → Type 0
  OldOrNew now = OldKept before now ⊎ Committed before new now

  pub update_finalize-IsCommitted :
      (s : Storage)
      → 2 ≤ before.meta_block_header.scratch_idx
      → Stage before new s
      → Ends (meta_update_finalize d s) (λ _. IsCommitted) (λ s'. OldOrNew s' × Broken d)
  unfolding meta_update_finalize meta_erase_scratch_blocks
  update_finalize-IsCommitted s lo st =
      Ends-bind _ _ (Ends-loosen _ (write_header-IsHeaded s st) λ s' o. (inl o.0, o.1)) λ _ s1 h.
        Ends-bind _ _
          (Ends-loosen _ (erase-Touched d laws s1.active_metablock (swap_metablocks s1))
            λ s2 t. (inr (new2 h t.0), t.1))
          λ _ s2 t.
            Ends-weaken _
              (Ends-loosen _ (erase-Touched d laws s2.meta_block_header.scratch_idx s2)
                λ s3 u. (inr (new3 h t.0 u.0), u.1))
              λ _ s3 u. record {
                active = u.0.active ∙ t.0.active ∙ h.scratch;
                scratch = u.0.scratch ∙ t.0.scratch ∙ h.active;
                header = u.0.header ∙ t.0.header ∙ h.header;
                committed = new3 h t.0 u.0;
                blank_old = λ o l.
                    u.0.kept _ (inl (omega (arith, data_block h t.0)))
                    ∙ ap s2.flash (omega (arith, h.active))
                    ∙ t.1 o l;
              }
    where
      data_block :
          {s1 s2 : Storage}
          → IsHeaded s1
          → Touched (phys_address s1.active_metablock 0) block_size (swap_metablocks s1) s2
          → s2.meta_block_header.scratch_idx ≡ before.meta_block_header.scratch_idx
      data_block h t = ap (λ (x : Header). x.scratch_idx) (t.header ∙ h.header)

      new2 :
          {s1 s2 : Storage}
          → IsHeaded s1
          → Touched (phys_address s1.active_metablock 0) block_size (swap_metablocks s1) s2
          → Committed before new s2
      new2 {s1} {s2} h t =
          Committed-Touched {s = swap_metablocks s1} s1.active_metablock 0 block_size apart
            (omega (arith, h.active)) (λ e. absurd (omega (arith, h.active, e))) (omega arith)
            record {
              tables = h.committed.tables;
              version = h.committed.version;
              count = h.committed.count;
              data_scratch = h.committed.data_scratch;
            }
            t

      new3 :
          {s1 s2 s3 : Storage}
          → IsHeaded s1
          → Touched (phys_address s1.active_metablock 0) block_size (swap_metablocks s1) s2
          → Touched (phys_address s2.meta_block_header.scratch_idx 0) block_size s2 s3
          → Committed before new s3
      new3 {s1} {s2} h t u =
          Committed-Touched s2.meta_block_header.scratch_idx 0 block_size apart
            (omega (arith, data_block h t, data_hi))
            (λ e. absurd (omega (arith, data_block h t, e))) (omega arith) (new2 h t) u
