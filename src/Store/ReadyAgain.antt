-- ===== src/Store/ReadyAgain.antt =====
-- A file system that was ready, after an update.
use tfm_demo.Prelude.{ℕ, ◌+◌, ◌≤◌, ◌<◌, ◌≡◌, ap, sym, ◌∙◌, arith, inl, inr}
use native.Mathlib.Decide.{dec_lt}
use tfm_demo.AuditLog.Buffer.{Bytes}
use tfm_demo.Store.Layout.{
  block_size, header_size, scratch_idx_offset, fs_version_offset, swap_count_offset,
  metadata_block1, block_meta_offset,
}
use tfm_demo.Store.Effects.{Storage, Header}
use tfm_demo.Store.Flash.{Driver, IsFlash, phys_address}
use tfm_demo.Store.Meta.{BlockMetadata, u32_at}
use tfm_demo.Store.Commit.{next_swap_count}
use tfm_demo.Store.Staged.{IsStaged, Stage, block_of, block_entry, blank, active_of}
use tfm_demo.Store.Entries.{to_block_metadata_agree}
use tfm_demo.Store.Committed.{IsCommitted}
use tfm_demo.Store.Kept.{OldKept}
use tfm_demo.Store.Quiet.{IsQuiet}
use tfm_demo.Store.Ready.{IsReady, next_small}

module _ (before : Storage) (ready : IsReady before) where
  -- The flash and the context are as they were, so the scratch metadata block is erased.
  pub Quiet-IsStaged : (s : Storage) → IsQuiet before s → IsStaged before s
  Quiet-IsStaged s q = record {
    active = q.active;
    scratch = q.scratch;
    header = q.header;
    kept = λ x h. ap (λ (f : Bytes). f x) q.flash;
  }

  pub Quiet-Stage : (s : Storage) → IsQuiet before s → Stage before blank s
  Quiet-Stage s q = record {
    staged = Quiet-IsStaged s q;
    holds = λ o a b.
        ap (λ (f : Bytes). f (phys_address before.scratch_metablock o)) q.flash ∙ ready.erased o b;
  }

  pub IsStaged-OldKept : (s : Storage) → IsStaged before s → OldKept before s
  IsStaged-OldKept s st o h =
      st.kept _ (elim (dec_lt before.active_metablock before.scratch_metablock) [
        | yes a ↦ inl (omega (arith, ready.apart))
        | no a ↦ inr (omega (arith, ready.apart))
      ])

  module _ (d : Driver) (laws : IsFlash d) (new : Bytes) (now : Storage)
      (f : IsCommitted d laws before ready.apart
        (λ o a. ready.erased o (omega arith))
        ready.scratch_hi
        new
        now) where
    -- The active metadata block behind its header.
    pub same_tables : (o : ℕ) → header_size ≤ o → o < block_size → active_of now o ≡ new o
    same_tables o a b = ap (λ (n : ℕ). block_of now n o) f.active ∙ f.committed.tables o a b

    scratch_same : now.meta_block_header.scratch_idx ≡ before.meta_block_header.scratch_idx
    scratch_same = ap (λ (h : Header). h.scratch_idx) f.header

    counted :
        now.meta_block_header.active_swap_count
        ≡ next_swap_count before.meta_block_header.active_swap_count
    counted = ap (λ (h : Header). h.active_swap_count) f.header

    pub IsCommitted-IsReady : (block_entry new 0).phys_id ≤ metadata_block1 → IsReady now
    IsCommitted-IsReady le = record {
      apart = omega (arith, f.active, f.scratch, ready.apart);
      block0 = omega (
        arith,
        le,
        ap (λ (m : BlockMetadata). m.phys_id)
            (to_block_metadata_agree _ _
              (λ x b. same_tables (block_meta_offset 0 + x) (omega arith) (omega arith))),
      );
      erased = λ o l. ap (λ (n : ℕ). block_of now n o) f.scratch ∙ f.blank_old o l;
      scratch_lo = omega (arith, scratch_same, ready.scratch_lo);
      scratch_hi = omega (arith, scratch_same, ready.scratch_hi);
      version = ap (λ (h : Header). h.fs_version) f.header ∙ ready.version;
      count = omega (arith, counted, next_small _ ready.count);
      flash_version =
          ap (λ (n : ℕ). block_of now n fs_version_offset) f.active
          ∙ f.committed.version
          ∙ omega (arith, ready.version);
      flash_scratch =
          ap (λ (n : ℕ). u32_at (block_of now n) scratch_idx_offset) f.active
          ∙ f.committed.data_scratch
          ∙ sym scratch_same;
      flash_count =
          ap (λ (n : ℕ). block_of now n swap_count_offset) f.active
          ∙ f.committed.count
          ∙ omega (arith, counted, next_small _ ready.count);
    }
