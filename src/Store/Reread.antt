-- ===== src/Store/Reread.antt =====
-- Reading the headers back after an interrupted update.
use tfm_demo.Prelude.{ℕ, some, ◌+◌, ◌≤◌, ◌<◌, ◌≡◌, ◌⊎◌, refl, ap, ◌∙◌, arith, inl, inr}
use native.Mathlib.Decide.{dec_lt}
use tfm_demo.AuditLog.Buffer.{Bytes}
use tfm_demo.Store.Layout.{
  block_size, header_size, fs_version_offset, swap_count_offset, flash_default_val,
  other_meta_block, metadata_block0, metadata_block1,
}
use tfm_demo.Store.Effects.{Storage}
use tfm_demo.Store.Flash.{Driver, IsFlash, phys_address, read, flash_read}
use tfm_demo.Store.Meta.{to_header}
use tfm_demo.Sst.Utils.{SstErr}
use tfm_demo.Store.Validate.{validate_header_meta, validate_fs_version, validate_swap_count}
use tfm_demo.Store.Tables.{on_header}
use tfm_demo.Store.Prepare.{choose_meta_block, init_get_active_metablock, meta_read_meta_header}
use tfm_demo.Store.Ends.{Ends, Ends-bind, Ends-answer, Ends-loosen, Ends-renamed}
use tfm_demo.Store.Staged.{active_of}
use tfm_demo.Store.Staging.{Ends-check}
use tfm_demo.Store.Touched.{Broken}
use tfm_demo.Store.Kept.{OldKept}
use tfm_demo.Store.Ready.{IsReady}
use tfm_demo.Store.Recovery.{IsValid, choose_meta_block-erased0, choose_meta_block-erased1}

-- The flash of `now` is that of `before` but for what lies behind the header of the scratch
-- metadata block. Nothing is said of the running context, which a reset clears.
abbrev pub IsInterrupted : Storage → Storage → Type 0
IsInterrupted before now =
    (x : ℕ)
    → (x < phys_address before.scratch_metablock header_size)
      ⊎ (phys_address before.scratch_metablock block_size ≤ x)
    → now.flash x ≡ before.flash x

module _ (d : Driver) (laws : IsFlash d) where
  read-Same :
      (block offset size : ℕ) (s : Storage)
      → Ends
          (read d block offset size s)
          (λ b s'.
            (s'.flash ≡ s.flash)
            × (s'.active_metablock ≡ s.active_metablock)
            × (s'.scratch_metablock ≡ s.scratch_metablock)
            × ((k : ℕ) → k < size → b k ≡ s.flash (phys_address block offset + k)))
          (λ s'. (s'.flash ≡ s.flash) × Broken d)
  unfolding read flash_read
  read-Same block offset size s =
      Ends-answer _ _ _ (λ e. (refl, refl, refl, λ k l. laws.reads _ _ _ _ k e l))
        (λ ne. (refl, λ w. ne (w.read_works _ _ _ _)))

  module _ (before : Storage) (ready : IsReady before) where
    pub active_kept : (s : Storage) → IsInterrupted before s → OldKept before s
    active_kept s kept o h =
        kept _ (elim (dec_lt before.active_metablock before.scratch_metablock) [
          | yes a ↦ inl (omega (arith, ready.apart))
          | no a ↦ inr (omega (arith, ready.apart))
        ])

    -- The header bytes of the active block, read back.
    active_header :
        (s : Storage) (b : Bytes) (block : ℕ)
        → block ≡ before.active_metablock
        → OldKept before s
        → ((k : ℕ) → k < header_size → b k ≡ s.flash (phys_address block 0 + k))
        → (k : ℕ) → k < header_size
        → b k ≡ active_of before k
    active_header s b block e kept h k l =
        h k l ∙ ap s.flash (omega (arith, e)) ∙ kept k (omega arith)

    valid :
        (b : Bytes) → ((k : ℕ) → k < header_size → b k ≡ active_of before k) → IsValid (to_header b)
    valid b h = (
      omega (arith, h fs_version_offset (omega arith), ready.flash_version),
      λ e.
          absurd
            (omega (arith, e, h swap_count_offset (omega arith), ready.flash_count, ready.count)),
    )

    erased :
        (s : Storage) (b : Bytes) (block : ℕ)
        → block ≡ before.scratch_metablock
        → IsInterrupted before s
        → ((k : ℕ) → k < header_size → b k ≡ s.flash (phys_address block 0 + k))
        → (to_header b).active_swap_count ≡ flash_default_val
    erased s b block e kept h = omega (
      arith,
      h swap_count_offset (omega arith),
      ap s.flash at_block,
      kept (phys_address before.scratch_metablock swap_count_offset)
          (inl (omega (arith, ready.apart))),
      ready.erased swap_count_offset (omega arith),
    )
      where
        at_block :
            phys_address block 0 + swap_count_offset
            ≡ phys_address before.scratch_metablock swap_count_offset
        at_block = omega (arith, e, ready.apart)

    chosen :
        (s : Storage) (b0 b1 : Bytes)
        → IsInterrupted before s
        → ((k : ℕ) → k < header_size → b0 k ≡ s.flash (phys_address metadata_block0 0 + k))
        → ((k : ℕ) → k < header_size → b1 k ≡ s.flash (phys_address metadata_block1 0 + k))
        → choose_meta_block (to_header b0) (to_header b1) ≡ some before.active_metablock
    chosen s b0 b1 kept h0 h1 = elim (dec_lt before.active_metablock 1) [
      | yes a ↦
          choose_meta_block-erased1 (to_header b0) (to_header b1)
            (valid b0 (active_header s b0 0 (omega arith) (active_kept s kept) h0))
            (erased s b1 1 (omega (arith, ready.apart)) kept h1)
          ∙ ap some (omega arith)
      | no a ↦
          choose_meta_block-erased0 (to_header b0) (to_header b1)
            (valid b1 (active_header s b1 1 (omega (arith, ready.apart)) (active_kept s kept) h1))
            (erased s b0 0 (omega (arith, ready.apart)) kept h0)
          ∙ ap some (omega (arith, ready.apart))
    ]

    -- The same flash.
    pub carried :
        (s s' : Storage) → s'.flash ≡ s.flash → IsInterrupted before s → IsInterrupted before s'
    carried s s' e kept x h = ap (λ (f : Bytes). f x) e ∙ kept x h

    -- The old active block is in use again; the flash is as it was.
    pub record IsChosen (now : Storage) : Type 0 where
      pub kept : IsInterrupted before now
      pub active : now.active_metablock ≡ before.active_metablock
      pub scratch : now.scratch_metablock ≡ before.scratch_metablock

    other : other_meta_block before.active_metablock ≡ before.scratch_metablock
    other = ground (arith, ready.apart)

    pub init_get_active_metablock-IsChosen :
        (s : Storage)
        → IsInterrupted before s
        → Ends
            (init_get_active_metablock d s)
            (λ _. IsChosen)
            (λ s'. IsInterrupted before s' × Broken d)
    unfolding init_get_active_metablock
    init_get_active_metablock-IsChosen s kept =
        Ends-bind _ _
          (Ends-renamed _ _
            (Ends-loosen _ (read-Same 0 0 header_size s) λ s' e. (carried s s' e.0 kept, e.1)))
          λ b0 s1 h0.
            Ends-bind _ _
              (Ends-renamed _ _ (
                Ends-loosen _ (read-Same 1 0 header_size s1)
                  λ s' e. (carried s s' (e.0 ∙ h0.0) kept, e.1)))
              λ b1 s2 h1.
                rw
                  (chosen s b0 b1 kept h0.3
                    λ k l. h1.3 k l ∙ ap (λ (f : Bytes). f (phys_address 1 0 + k)) h0.0)
                  (record {
                    holds = record {
                      kept = carried s s2 (h1.0 ∙ h0.0) kept;
                      active = refl;
                      scratch = other;
                    };
                  })

    accepted :
        (b : Bytes)
        → ((k : ℕ) → k < header_size → b k ≡ active_of before k)
        → validate_header_meta (to_header b) ≡ SstErr.success
    unfolding validate_header_meta validate_fs_version validate_swap_count
    accepted b h = ground (arith, (valid b h).0, (valid b h).1)

    -- The header of the running context is that of the flash.
    pub record IsRead (now : Storage) : Type 0 where
      pub chosen_block : IsChosen now
      pub header :
          (b : Bytes) × (now.meta_block_header ≡ to_header b)
          × ((k : ℕ) → k < header_size → b k ≡ active_of before k)

    pub meta_read_meta_header-IsRead :
        (s : Storage)
        → IsChosen s
        → Ends (meta_read_meta_header d s) (λ _. IsRead) (λ s'. IsInterrupted before s' × Broken d)
    unfolding meta_read_meta_header
    meta_read_meta_header-IsRead s c =
        Ends-bind _ _
          (Ends-loosen _ (read-Same s.active_metablock 0 header_size s)
            λ s' e. (carried s s' e.0 c.kept, e.1))
          λ b s1 h.
            let again : IsRead (on_header (λ _. to_header b) s1) = record {
              chosen_block = record {
                kept = carried s s1 h.0 c.kept;
                active = h.1 ∙ c.active;
                scratch = h.2 ∙ c.scratch;
              };
              header = (
                b,
                refl,
                active_header s b s.active_metablock c.active (active_kept s c.kept) h.3,
              );
            } in
            Ends-check _ _ (λ e. again) (λ ne. absurd (ne (accepted b (again.header.2))))
