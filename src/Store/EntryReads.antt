-- ===== src/Store/EntryReads.antt =====
-- The entries as they are read from the active metadata block, and the search for an id.
use tfm_demo.Prelude.{
  ℕ, zero, suc, Option, none, some, ◌+◌, ◌≤◌, ◌<◌, ◌≡◌, ◌≢◌, ◌⊎◌, ◌==◌, true, false, refl, sym, ap,
  ◌∙◌, arith, inl, inr, Bool-cases,
}
use native.Mathlib.Decide.{dec_lt}
use tfm_demo.AuditLog.Buffer.{Bytes}
use tfm_demo.Store.Layout.{
  block_size, num_assets, object_meta_offset, block_meta_offset, assetmeta_size,
  block_metadata_size, block_invalid_id,
}
use tfm_demo.Store.Effects.{Storage, Action, pure}
use tfm_demo.Store.Flash.{Driver, IsFlash, phys_address, request, read, flash_read}
use tfm_demo.Store.Meta.{AssetMeta, BlockMetadata, to_assetmeta, to_block_metadata}
use tfm_demo.Store.Validate.{succeeded, validate_object_meta, validate_block_meta}
use tfm_demo.Store.Tables.{read_object_meta, read_block_metadata, object_idx_loop, dblock_lo_to_phy}
use tfm_demo.Store.Ends.{
  Ends, Ends-bind, Ends-answer, Ends-done, Ends-loosen, Ends-renamed, Ends-tried, IfSome,
}
use tfm_demo.Store.Entries.{to_assetmeta_agree, to_block_metadata_agree}
use tfm_demo.Store.Staging.{Ends-check}
use tfm_demo.Store.Staged.{HasMetaBlocks, Faulty, active_of, object_entry, block_entry}
use tfm_demo.Store.Quiet.{IsQuiet}

-- The entry is the first one with the id.
abbrev pub IsFirst : Storage → ℕ → ℕ → Type 0
IsFirst before uuid i =
    (i < num_assets)
    × ((object_entry (active_of before) i).unique_id ≡ uuid)
    × ((j : ℕ) → j < i → (object_entry (active_of before) j).unique_id ≢ uuid)

abbrev pub IsAbsent : Storage → ℕ → Type 0
IsAbsent before uuid =
    (j : ℕ) → j < num_assets → (object_entry (active_of before) j).unique_id ≢ uuid

lblock_lt : (m : AssetMeta) → succeeded (validate_object_meta m) ≡ true → m.lblock < 3
unfolding validate_object_meta
lblock_lt m e = ground (arith, e)

phys_id_lt : (m : BlockMetadata) → succeeded (validate_block_meta m) ≡ true → m.phys_id < 5
unfolding validate_block_meta
phys_id_lt m e = ground (arith, e)

module _ (d : Driver) (laws : IsFlash d) (before : Storage) (apart : HasMetaBlocks before) where
  abbrev pub Stuck : Storage → Type 0
  Stuck s = IsQuiet before s × Faulty d before

  pub IsQuiet-request : (s : Storage) → IsQuiet before s → IsQuiet before (request s s.flash)
  IsQuiet-request s q = record {
    flash = q.flash;
    active = q.active;
    scratch = q.scratch;
    header = q.header;
  }

  pub read_active-Agrees :
      (block offset size : ℕ) (s : Storage)
      → block ≡ before.active_metablock
      → offset + size ≤ block_size
      → IsQuiet before s
      → Ends
          (read d block offset size s)
          (λ b s'. IsQuiet before s' × ((k : ℕ) → k < size → b k ≡ active_of before (offset + k)))
          Stuck
  unfolding read flash_read
  read_active-Agrees block offset size s here h q =
      Ends-answer _ _ _
        (λ e. (
          IsQuiet-request s q,
          λ k l.
              laws.reads _ _ _ _ k e l
              ∙ ap (λ (f : Bytes). f (phys_address block offset + k)) q.flash
              ∙ ap before.flash (omega (arith, here, apart)),
        ))
        (λ ne. (IsQuiet-request s q, λ w v. ne (w.read_works _ _ _ _)))

  pub read_object_meta-Entry :
      (idx : ℕ) (s : Storage)
      → idx < num_assets
      → IsQuiet before s
      → Ends
          (read_object_meta d idx s)
          (λ m s'. IsQuiet before s' × (m ≡ object_entry (active_of before) idx) × (m.lblock < 3))
          Stuck
  unfolding read_object_meta
  read_object_meta-Entry idx s lt q =
      Ends-bind _ _
        (read_active-Agrees _ (object_meta_offset idx) assetmeta_size s q.active (omega arith) q)
        λ b s1 r.
          Ends-bind _ _
            (Ends-check {P = λ _ s'. IsQuiet before s' × ((to_assetmeta b).lblock < 3)} _ s1
              (λ e. (r.0, lblock_lt (to_assetmeta b) e))
              (λ ne. (
                r.0,
                λ w v. ne (ap validate_object_meta (to_assetmeta_agree _ _ r.1) ∙ v.objects idx lt),
              )))
            λ _ s2 p. Ends-done _ s2 (p.0, to_assetmeta_agree _ _ r.1, p.1)

  pub read_block_metadata-Entry :
      (lblock : ℕ) (s : Storage)
      → lblock < 3
      → IsQuiet before s
      → Ends
          (read_block_metadata d lblock s)
          (λ m s'.
            IsQuiet before s' × (m ≡ block_entry (active_of before) lblock) × (m.phys_id < 5))
          Stuck
  unfolding read_block_metadata
  read_block_metadata-Entry lblock s lt q =
      Ends-bind _ _
        (read_active-Agrees _ (block_meta_offset lblock) block_metadata_size s q.active
          (omega arith) q)
        λ b s1 r.
          Ends-bind _ _
            (Ends-check {P = λ _ s'. IsQuiet before s' × ((to_block_metadata b).phys_id < 5)} _ s1
              (λ e. (r.0, phys_id_lt (to_block_metadata b) e))
              (λ ne. (
                r.0,
                λ w v.
                    ne (
                      ap validate_block_meta (to_block_metadata_agree _ _ r.1)
                      ∙ v.blocks lblock lt),
              )))
            λ _ s2 p. Ends-done _ s2 (p.0, to_block_metadata_agree _ _ r.1, p.1)

  pub object_idx_loop-IsFirst :
      (uuid k rounds : ℕ) (s : Storage)
      → k + rounds ≡ num_assets
      → ((j : ℕ) → j < k → (object_entry (active_of before) j).unique_id ≢ uuid)
      → IsQuiet before s
      → Ends
          (object_idx_loop d uuid k rounds s)
          (λ i s'. IsQuiet before s' × IsFirst before uuid i)
          (λ s'. IsQuiet before s' × (Faulty d before ⊎ IsAbsent before uuid))
  unfolding object_idx_loop
  object_idx_loop-IsFirst uuid k zero s e before_k q = record {
    holds = (q, inr λ j l. before_k j (omega (arith, e)));
  }
  object_idx_loop-IsFirst uuid k (suc rounds) s e before_k q =
      Ends-bind _ _
        (Ends-renamed _ _
          (Ends-loosen _ (read_object_meta-Entry k s (omega arith) q) λ s' f. (f.0, inl f.1)))
        λ m s1 r.
          let id : m.unique_id ≡ (object_entry (active_of before) k).unique_id =
            ap (λ (x : AssetMeta). x.unique_id) r.1 in
          elim (Bool-cases (m.unique_id == uuid)) [
            | inl found ↦
                rw found
                  (Ends-done _ s1 (r.0, (omega arith, sym id ∙ is_eq m.unique_id found, before_k)))
            | inr other ↦ rw other (
                object_idx_loop-IsFirst uuid (k + 1) rounds s1 (omega arith)
                  (λ j l h. elim (dec_lt j k) [
                    | yes a ↦ before_k j a h
                    | no a ↦ is_ne m.unique_id other (
                        id
                        ∙ ap (λ (n : ℕ). (object_entry (active_of before) n).unique_id)
                            (omega arith)
                        ∙ h)
                  ])
                  r.0)
          ]
    where
      is_eq : (n : ℕ) → (n == uuid) ≡ true → n ≡ uuid
      is_eq n h = ground arith

      is_ne : (n : ℕ) → (n == uuid) ≡ false → n ≢ uuid
      is_ne n h = ground arith

  pub dblock_lo_to_phy-Entry :
      (lblock : ℕ) (s : Storage)
      → lblock < 3
      → IsQuiet before s
      → Ends
          (dblock_lo_to_phy d lblock s)
          (λ p s'.
            IsQuiet before s'
            × (((p ≡ block_invalid_id) × Faulty d before)
                ⊎ ((p ≡ (block_entry (active_of before) lblock).phys_id) × (p < 5))))
          Stuck
  unfolding dblock_lo_to_phy
  dblock_lo_to_phy-Entry lblock s lt q =
      Ends-bind _ _ (Ends-tried _ (read_block_metadata-Entry lblock s lt q)) λ o s1 h. either o s1 h
    where
      either :
          (o : Option BlockMetadata) (s1 : Storage)
          → IfSome
              (λ m s'.
                IsQuiet before s' × (m ≡ block_entry (active_of before) lblock) × (m.phys_id < 5))
              Stuck
              o
              s1
          → Ends
              ((elim o as (λ x. Action ℕ) [
                | none ↦ pure block_invalid_id
                | some m ↦ pure m.phys_id
              ])
                s1)
              (λ p s'.
                IsQuiet before s'
                × (((p ≡ block_invalid_id) × Faulty d before)
                    ⊎ ((p ≡ (block_entry (active_of before) lblock).phys_id) × (p < 5))))
              Stuck
      either none s1 h = Ends-done _ s1 (h.0, inl (refl, h.1))
      either (some m) s1 h =
          Ends-done _ s1 (h.0, inr (ap (λ (x : BlockMetadata). x.phys_id) h.1, h.2))
