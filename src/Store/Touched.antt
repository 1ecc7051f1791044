-- ===== src/Store/Touched.antt =====
-- What a single write or erasure may change.
use tfm_demo.Prelude.{ℕ, ◌+◌, ◌≤◌, ◌<◌, ◌≡◌, ◌⊎◌, refl}
use tfm_demo.AuditLog.Buffer.{Bytes}
use tfm_demo.Store.Layout.{block_size, flash_default_val}
use tfm_demo.Store.Effects.{Storage}
use tfm_demo.Store.Flash.{
  Driver, IsFlash, Works, phys_address, request, flash_write, flash_erase, write, erase_block,
}
use tfm_demo.Store.Ends.{Ends, Ends-answer}

-- The running context is the same, and so is the flash outside a range.
pub record Touched (addr size : ℕ) (before now : Storage) : Type 0 where
  pub active : now.active_metablock ≡ before.active_metablock
  pub scratch : now.scratch_metablock ≡ before.scratch_metablock
  pub header : now.meta_block_header ≡ before.meta_block_header
  pub kept : (x : ℕ) → (x < addr) ⊎ (addr + size ≤ x) → now.flash x ≡ before.flash x

-- A step did not succeed, since a request to the flash did not.
abbrev pub Broken : Driver → Type 0
Broken d = ¬ Works d

module _ (d : Driver) (laws : IsFlash d) where
  pub write-Touched :
      (block : ℕ) (buff : Bytes) (offset size : ℕ) (s : Storage)
      → Ends
          (write d block buff offset size s)
          (λ _ s'.
            Touched (phys_address block offset) size s s'
            × ((k : ℕ)
                → k < size
                → s.flash (phys_address block offset + k) ≡ flash_default_val
                → s'.flash (phys_address block offset + k) ≡ buff k))
          (λ s'. Touched (phys_address block offset) size s s' × Broken d)
  unfolding write flash_write
  write-Touched block buff offset size s =
      Ends-answer _ _ _ (λ e. (same, λ k l erased. laws.programs _ _ _ _ _ k e l erased))
        (λ ne. (same, λ w. ne (w.program_works _ _ _ _ _)))
    where
      addr : ℕ
      addr = phys_address block offset

      same : Touched addr size s (request s (d.program_data s.requests s.flash addr buff size))
      same = record {
        active = refl;
        scratch = refl;
        header = refl;
        kept = λ x h. laws.programs_only _ _ _ _ _ x h;
      }

  pub erase-Touched :
      (block : ℕ) (s : Storage)
      → Ends
          (erase_block d block s)
          (λ _ s'.
            Touched (phys_address block 0) block_size s s'
            × ((k : ℕ) → k < block_size → s'.flash (phys_address block 0 + k) ≡ flash_default_val))
          (λ s'. Touched (phys_address block 0) block_size s s' × Broken d)
  unfolding erase_block flash_erase
  erase-Touched block s =
      Ends-answer _ _ _ (λ e. (same, λ k l. laws.erases _ _ _ k e l))
        (λ ne. (same, λ w. ne (w.erase_works _ _ _)))
    where
      same :
          Touched
            (phys_address block 0)
            block_size
            s
            (request s (d.erase_sector s.requests s.flash (phys_address block 0)))
      same = record {
        active = refl;
        scratch = refl;
        header = refl;
        kept = λ x h. laws.erases_only _ _ _ x h;
      }
