-- ===== src/Store/Quiet.antt =====
-- Steps that only read, and steps that leave the data areas of the metadata blocks alone.
use tfm_demo.Prelude.{ℕ, ◌+◌, ◌≤◌, ◌<◌, ◌≡◌, ◌⊎◌, refl, ap, ◌∙◌, arith, inl, inr}
use tfm_demo.AuditLog.Buffer.{Bytes}
use tfm_demo.Store.Layout.{header_size, all_metadata_size}
use tfm_demo.Store.Effects.{Storage, Header}
use tfm_demo.Store.Flash.{
  Driver, IsFlash, phys_address, request, read, flash_read, block_to_block_move, write,
}
use tfm_demo.Store.Tables.{read_block_metadata, read_object_meta}
use tfm_demo.Store.Ends.{Ends, Ends-bind, Ends-answer, Ends-done, Ends-weaken, Ends-loosen}
use tfm_demo.Store.Staging.{Ends-check}
use tfm_demo.Store.Staged.{HasMetaBlocks}
use tfm_demo.Store.Touched.{Touched, write-Touched}

-- Only the count of requests may differ.
pub record IsQuiet (before now : Storage) : Type 0 where
  pub flash : now.flash ≡ before.flash
  pub active : now.active_metablock ≡ before.active_metablock
  pub scratch : now.scratch_metablock ≡ before.scratch_metablock
  pub header : now.meta_block_header ≡ before.meta_block_header

-- In the metadata blocks only the tables of the scratch one may differ; the scratch data block is
-- `data_block`.
pub record IsTablesOnly (before : Storage) (data_block : ℕ) (now : Storage) : Type 0 where
  pub active : now.active_metablock ≡ before.active_metablock
  pub scratch : now.scratch_metablock ≡ before.scratch_metablock
  pub data_scratch : now.meta_block_header.scratch_idx ≡ data_block
  pub kept :
      (x : ℕ)
      → x < phys_address 2 0
      → (x < phys_address before.scratch_metablock header_size)
        ⊎ (phys_address before.scratch_metablock all_metadata_size ≤ x)
      → now.flash x ≡ before.flash x

pub IsTablesOnly-IsQuiet :
    {before s now : Storage} {data_block : ℕ}
    → IsTablesOnly before data_block s
    → IsQuiet s now
    → IsTablesOnly before data_block now
IsTablesOnly-IsQuiet t q = record {
  active = q.active ∙ t.active;
  scratch = q.scratch ∙ t.scratch;
  data_scratch = ap (λ (h : Header). h.scratch_idx) q.header ∙ t.data_scratch;
  kept = λ x a h. ap (λ (f : Bytes). f x) q.flash ∙ t.kept x a h;
}

module _ (d : Driver) (laws : IsFlash d) where
  flash_read-IsQuiet :
      (addr size : ℕ) (s : Storage) → Ends (flash_read d addr size s) (λ _. IsQuiet s) (IsQuiet s)
  unfolding flash_read
  flash_read-IsQuiet addr size s = Ends-answer _ _ _ (λ e. same) (λ ne. same)
    where
      same : IsQuiet s (request s s.flash)
      same = record { flash = refl; active = refl; scratch = refl; header = refl }

  pub read_object_meta-IsQuiet :
      (idx : ℕ) (s : Storage) → Ends (read_object_meta d idx s) (λ _. IsQuiet s) (IsQuiet s)
  unfolding read_object_meta read
  read_object_meta-IsQuiet idx s = Ends-bind _ _ (flash_read-IsQuiet _ _ s) λ b s1 q.
      Ends-bind _ _ (Ends-check {P = λ _. IsQuiet s} _ s1 (λ e. q) (λ ne. q))
        λ _ s2 r. Ends-done _ s2 r

  pub read_block_metadata-IsQuiet :
      (lblock : ℕ) (s : Storage)
      → Ends (read_block_metadata d lblock s) (λ _. IsQuiet s) (IsQuiet s)
  unfolding read_block_metadata read
  read_block_metadata-IsQuiet lblock s = Ends-bind _ _ (flash_read-IsQuiet _ _ s) λ b s1 q.
      Ends-bind _ _ (Ends-check {P = λ _. IsQuiet s} _ s1 (λ e. q) (λ ne. q))
        λ _ s2 r. Ends-done _ s2 r

  module _ (before : Storage) (apart : HasMetaBlocks before) (data_block : ℕ) where
    -- A write to the tables of the scratch block, or to another block than a metadata block.
    abbrev pub IsAllowed : ℕ → ℕ → ℕ → Type 0
    IsAllowed block offset size =
        ((block ≡ before.scratch_metablock)
          × (header_size ≤ offset)
          × (offset + size ≤ all_metadata_size))
        ⊎ ((2 ≤ block) × (block < 5) × (offset ≤ 4096))

    allowed :
        (block offset size : ℕ) (s now : Storage)
        → IsAllowed block offset size
        → IsTablesOnly before data_block s
        → Touched (phys_address block offset) size s now
        → IsTablesOnly before data_block now
    allowed block offset size s now (inl p) t u = record {
      active = u.active ∙ t.active;
      scratch = u.scratch ∙ t.scratch;
      data_scratch = ap (λ (h : Header). h.scratch_idx) u.header ∙ t.data_scratch;
      kept = λ x a h. u.kept x (beside x h) ∙ t.kept x a h;
    }
      where
        beside :
            (x : ℕ)
            → (x < phys_address before.scratch_metablock header_size)
              ⊎ (phys_address before.scratch_metablock all_metadata_size ≤ x)
            → (x < phys_address block offset) ⊎ (phys_address block offset + size ≤ x)
        beside x (inl a) = inl (omega (arith, p.0, p.1, p.2, apart))
        beside x (inr a) = inr (omega (arith, p.0, p.1, p.2, apart))
    allowed block offset size s now (inr p) t u = record {
      active = u.active ∙ t.active;
      scratch = u.scratch ∙ t.scratch;
      data_scratch = ap (λ (h : Header). h.scratch_idx) u.header ∙ t.data_scratch;
      kept = λ x a h. u.kept x (inl (omega (arith, p.0, p.1, p.2))) ∙ t.kept x a h;
    }

    pub write-IsTablesOnly :
        (block : ℕ) (buff : Bytes) (offset size : ℕ) (s : Storage)
        → IsAllowed block offset size
        → IsTablesOnly before data_block s
        → Ends
            (write d block buff offset size s)
            (λ _. IsTablesOnly before data_block)
            (IsTablesOnly before data_block)
    write-IsTablesOnly block buff offset size s p t =
        Ends-weaken _
          (Ends-loosen _ (write-Touched d laws block buff offset size s)
            λ s' u. allowed block offset size s s' p t u.0)
          λ _ s' u. allowed block offset size s s' p t u.0

    pub move-IsTablesOnly :
        (dst offset src src_offset size : ℕ) (s : Storage)
        → IsAllowed dst offset size
        → IsTablesOnly before data_block s
        → Ends
            (block_to_block_move d dst offset src src_offset size s)
            (λ _. IsTablesOnly before data_block)
            (IsTablesOnly before data_block)
    unfolding block_to_block_move
    move-IsTablesOnly dst offset src src_offset size s p t =
        Ends-bind _ _
          (Ends-weaken _ (Ends-loosen _ (flash_read-IsQuiet _ _ s) λ s' q. IsTablesOnly-IsQuiet t q)
            λ _ s' q. IsTablesOnly-IsQuiet t q)
          λ b s1 t1. unfold write in write-IsTablesOnly dst b offset size s1 p t1
