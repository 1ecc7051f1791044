-- ===== src/Store/PrepareLaws.antt =====
-- Preparing the file system after an interrupted update: back to the state before it.
use tfm_demo.Prelude.{ℕ, ◌+◌, ◌<◌, ◌≡◌, sym, ap, ◌∙◌, arith, inl, word}
use tfm_demo.Store.Layout.{
  block_size, scratch_idx_offset, fs_version_offset, swap_count_offset, flash_default_val,
  block_meta_offset,
}
use tfm_demo.Store.Effects.{Storage, Header}
use tfm_demo.Store.Flash.{Driver, IsFlash, phys_address}
use tfm_demo.Store.Meta.{BlockMetadata}
use tfm_demo.Store.Commit.{meta_erase_scratch_blocks}
use tfm_demo.Store.Prepare.{core_prepare}
use tfm_demo.Store.Create.{stage_creation}
use tfm_demo.Store.Ends.{Ends, Ends-bind, Ends-weaken, Ends-loosen, Ends-renamed}
use tfm_demo.Store.Staged.{block_of, active_of}
use tfm_demo.Store.Entries.{u32_at_agree, to_block_metadata_agree}
use tfm_demo.Store.Touched.{Touched, Broken, erase-Touched}
use tfm_demo.Store.Kept.{OldKept, OldKept-Touched}
use tfm_demo.Store.CreateLaws.{stage_creation-IsStaged}
use tfm_demo.Store.Ready.{IsReady}
use tfm_demo.Store.Reread.{
  IsInterrupted, IsRead, active_kept, carried, init_get_active_metablock-IsChosen,
  meta_read_meta_header-IsRead,
}

module _ (d : Driver) (laws : IsFlash d) where
  module _ (before : Storage) (ready : IsReady before) where
    -- What the header says is what the context was.
    data_block :
        (s : Storage)
        → IsRead d laws before ready s
        → s.meta_block_header.scratch_idx ≡ before.meta_block_header.scratch_idx
    data_block s r =
        ap (λ (h : Header). h.scratch_idx) r.header.1
        ∙ u32_at_agree r.header.0 (active_of before) scratch_idx_offset
            (λ k l. r.header.2 (scratch_idx_offset + k) (omega arith))
        ∙ ready.flash_scratch

    prepared :
        (s s' : Storage)
        → IsRead d laws before ready s
        → s'.active_metablock ≡ s.active_metablock
        → s'.scratch_metablock ≡ s.scratch_metablock
        → s'.meta_block_header ≡ s.meta_block_header
        → OldKept before s'
        → ((o : ℕ) → o < block_size → block_of s' before.scratch_metablock o ≡ flash_default_val)
        → IsReady s'
    prepared s s' r ea es eh old blank = record {
      apart = omega (arith, ready.apart, ea, es, r.chosen_block.active, r.chosen_block.scratch);
      block0 = omega (
        arith,
        ap (λ (m : BlockMetadata). m.phys_id)
            (to_block_metadata_agree (λ k. active_of s' (block_meta_offset 0 + k))
              (λ k. active_of before (block_meta_offset 0 + k))
              (λ k l. same (block_meta_offset 0 + k) (omega arith))),
        ready.block0,
      );
      erased = λ o l. ap (λ (n : ℕ). block_of s' n o) (es ∙ r.chosen_block.scratch) ∙ blank o l;
      scratch_lo = omega (arith, idx, ready.scratch_lo);
      scratch_hi = omega (arith, idx, ready.scratch_hi);
      version = omega (
        arith,
        ap (λ (h : Header). h.fs_version) (eh ∙ r.header.1),
        r.header.2 fs_version_offset (omega arith),
        ready.flash_version,
      );
      count = omega (arith, counted, ready.count);
      flash_version = same _ (omega arith) ∙ ready.flash_version;
      flash_scratch =
          u32_at_agree (active_of s') (active_of before) scratch_idx_offset
            (λ k l. same (scratch_idx_offset + k) (omega arith))
          ∙ ready.flash_scratch
          ∙ sym idx;
      flash_count = same _ (omega arith) ∙ ready.flash_count ∙ sym counted;
    }
      where
        here : s'.active_metablock ≡ before.active_metablock
        here = ea ∙ r.chosen_block.active

        same : (o : ℕ) → o < block_size → active_of s' o ≡ active_of before o
        same o l = ap (λ (n : ℕ). block_of s' n o) here ∙ old o l

        idx : s'.meta_block_header.scratch_idx ≡ before.meta_block_header.scratch_idx
        idx = ap (λ (h : Header). h.scratch_idx) eh ∙ data_block s r

        counted :
            s'.meta_block_header.active_swap_count ≡ before.meta_block_header.active_swap_count
        counted = omega (
          arith,
          ap (λ (h : Header). h.active_swap_count) (eh ∙ r.header.1),
          r.header.2 swap_count_offset (omega arith),
          ready.flash_count,
          ready.count,
        )

    -- Ready again, with the tables of before.
    pub record IsRecovered (now : Storage) : Type 0 where
      pub ready_again : IsReady now
      pub active : now.active_metablock ≡ before.active_metablock
      pub old : OldKept before now

    -- With the flash of a ready file system, but for what lies behind the header of the scratch metadata
    -- block, and with any context: preparing makes the old metadata block the active one, as it was, and
    -- the file system ready; it fails only if the flash does, and leaves that block as it was.
    pub core_prepare-IsRecovered :
        (s : Storage)
        → IsInterrupted before s
        → Ends (core_prepare d s) (λ _. IsRecovered) (λ s'. OldKept before s' × Broken d)
    unfolding core_prepare meta_erase_scratch_blocks
    core_prepare-IsRecovered s kept =
        Ends-bind _ _
          (Ends-renamed _ _
            (Ends-loosen _ (init_get_active_metablock-IsChosen d laws before ready s kept) stop))
          λ _ s1 c.
            Ends-bind _ _
              (Ends-renamed _ _
                (Ends-loosen _ (meta_read_meta_header-IsRead d laws before ready s1 c) stop))
              λ _ s2 r.
                Ends-bind _ _
                  (Ends-loosen _ (erase-Touched d laws s2.scratch_metablock s2)
                    λ s3 f. (old3 s2 r s3 f.0, f.1))
                  λ _ s3 t.
                    Ends-weaken _
                      (Ends-loosen _ (erase-Touched d laws s3.meta_block_header.scratch_idx s3)
                        λ s4 f. (old4 s2 r s3 t.0 s4 f.0, f.1))
                      λ _ s4 u. record {
                        ready_again =
                            prepared s2 s4 r (u.0.active ∙ t.0.active) (u.0.scratch ∙ t.0.scratch)
                              (u.0.header ∙ t.0.header) (old4 s2 r s3 t.0 s4 u.0)
                              (λ o l.
                                u.0.kept _ (
                                  inl
                                    (omega (arith, ready.apart, idx s2 r s3 t.0, ready.scratch_lo)))
                                ∙ ap s3.flash (omega (arith, r.chosen_block.scratch))
                                ∙ t.1 o l);
                        active = u.0.active ∙ t.0.active ∙ r.chosen_block.active;
                        old = old4 s2 r s3 t.0 s4 u.0;
                      }
      where
        stop : (s : Storage) → IsInterrupted before s × Broken d → OldKept before s × Broken d
        stop s f = (active_kept d laws before ready s f.0, f.1)

        old3 :
            (s2 : Storage)
            → IsRead d laws before ready s2
            → (s3 : Storage) → Touched (phys_address s2.scratch_metablock 0) block_size s2 s3
            → OldKept before s3
        old3 s2 r s3 t =
            OldKept-Touched before s3 s2 s2.scratch_metablock 0 block_size ready.apart
              (omega (arith, ready.apart, r.chosen_block.scratch))
              (λ e. absurd (omega (arith, ready.apart, r.chosen_block.scratch, e))) (omega arith)
              (active_kept d laws before ready s2 r.chosen_block.kept) t

        idx :
            (s2 : Storage)
            → IsRead d laws before ready s2
            → (s3 : Storage) → Touched (phys_address s2.scratch_metablock 0) block_size s2 s3
            → s3.meta_block_header.scratch_idx ≡ before.meta_block_header.scratch_idx
        idx s2 r s3 t = ap (λ (h : Header). h.scratch_idx) t.header ∙ data_block s2 r

        old4 :
            (s2 : Storage)
            → IsRead d laws before ready s2
            → (s3 : Storage) → Touched (phys_address s2.scratch_metablock 0) block_size s2 s3
            → (s4 : Storage)
            → Touched (phys_address s3.meta_block_header.scratch_idx 0) block_size s3 s4
            → OldKept before s4
        old4 s2 r s3 t s4 u =
            OldKept-Touched before s4 s3 s3.meta_block_header.scratch_idx 0 block_size ready.apart
              (omega (arith, idx s2 r s3 t, ready.scratch_hi))
              (λ e. absurd (omega (arith, ready.apart, ready.scratch_lo, idx s2 r s3 t, e)))
              (omega arith) (old3 s2 r s3 t) u

    -- In a ready file system, for a 32-bit id and size: where creating an object stops before the header
    -- is written, by an error or a loss of power, preparing after a reset makes the old metadata block
    -- the active one, as it was, and the file system ready; it fails only if the flash does.
    pub stage_creation-IsRecovered :
        (uuid size : ℕ)
        → uuid < word
        → size < word
        → Ends
            (stage_creation d uuid size before)
            (λ _ s. Unit {0})
            (λ s.
              (booted : Storage)
              → booted.flash ≡ s.flash
              → Ends
                  (core_prepare d booted)
                  (λ _. IsRecovered)
                  (λ s'. OldKept before s' × Broken d))
    stage_creation-IsRecovered uuid size uuid32 size32 =
        Ends-weaken _
          (Ends-loosen _ (stage_creation-IsStaged d laws before ready uuid size uuid32 size32)
            λ s f booted e.
              core_prepare-IsRecovered booted (carried d laws before ready s booted e f.0.kept))
          λ _ s c. tt
