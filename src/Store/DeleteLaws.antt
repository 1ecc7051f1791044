-- ===== src/Store/DeleteLaws.antt =====
-- Deleting an object that does not lie in block 0: the data of block 0 do not come along.
use tfm_demo.Prelude.{
  ℕ, zero, suc, true, ◌+◌, ◌-◌, ◌==◌, ◌≤◌, ◌<◌, ◌≡◌, ◌⊎◌, ltb, not, refl, sym, ap, ◌∙◌, arith, inl,
  inr, Bool-cases, subst, if_ne, ltb→lt,
}
use native.Mathlib.Decide.{dec_lt}
use tfm_demo.Sst.Utils.{validate_uuid}
use tfm_demo.Store.Layout.{
  block_size, header_size, all_metadata_size, num_assets, flash_default_val,
}
use tfm_demo.Store.Effects.{Storage, Header}
use tfm_demo.Store.Flash.{Driver, IsFlash, phys_address}
use tfm_demo.Store.Meta.{AssetMeta}
use tfm_demo.Store.Validate.{succeeded}
use tfm_demo.Store.Tables.{cur_data_scratch, set_data_scratch, object_idx_loop, get_object_idx}
use tfm_demo.Store.Delete.{released, no_moves, compact_dblock, stage_deletion}
use tfm_demo.Store.Ends.{
  Ends, Ends-bind, Ends-done, Ends-weaken, Ends-renamed, Ends-when, Ends-any, Ends-undone, Anything,
}
use tfm_demo.Store.Staged.{IsStaged-refl, Stage, block_of, active_of, object_entry, blank}
use tfm_demo.Store.Staging.{read_object_meta-Stage}
use tfm_demo.Store.Ready.{IsReady}
use tfm_demo.Store.Quiet.{IsTablesOnly, move-IsTablesOnly}
use tfm_demo.Store.TableWrites.{
  update_block-IsTablesOnly, read_block-IsTablesOnly, copy_blocks-IsTablesOnly,
  put_object-IsTablesOnly, move_loop-IsTablesOnly,
}

module _ (d : Driver) (laws : IsFlash d) (before : Storage) (ready : IsReady before) where
  -- The data area of the new metadata block is erased.
  abbrev pub IsDataBlank : Storage → Type 0
  IsDataBlank s =
      (s.scratch_metablock ≡ before.scratch_metablock)
      × ((o : ℕ)
          → all_metadata_size ≤ o
          → o < block_size
          → block_of s before.scratch_metablock o ≡ flash_default_val)

  data_blank : {k : ℕ} {s : Storage} → IsTablesOnly before k s → IsDataBlank s
  data_blank t = (
    t.scratch,
    λ o a b.
        t.kept _ (omega (arith, ready.apart)) (inr (omega (arith, ready.apart))) ∙ ready.erased o b,
  )

  with_data_scratch :
      (k phys_id lblock : ℕ) (s : Storage)
      → 0 < lblock
      → IsTablesOnly before k s
      → IsTablesOnly before phys_id (set_data_scratch phys_id lblock s)
  with_data_scratch k phys_id lblock s pos t =
      subst (IsTablesOnly before phys_id) (sym (if_ne s _ λ e. absurd (omega (arith, e))))
        record { active = t.active; scratch = t.scratch; data_scratch = refl; kept = t.kept }

  compact-IsDataBlank :
      (lblock obj_size src_offset dst_offset size : ℕ) (s : Storage)
      → 0 < lblock
      → lblock < 3
      → dst_offset ≤ block_size
      → IsTablesOnly before before.meta_block_header.scratch_idx s
      → Ends
          (compact_dblock d lblock obj_size src_offset dst_offset size s)
          (λ _. IsDataBlank)
          Anything
  unfolding compact_dblock
  compact-IsDataBlank lblock obj_size src_offset dst_offset size s pos lt fits t =
      Ends-bind _ _ (Ends-any _ (read_block-IsTablesOnly d laws before ready _ lblock s t))
        λ m s1 t1.
          Ends-bind _ _
            (Ends-when (ltb 0 size) _ s1
              (λ h. Ends-renamed _ _ (
                Ends-any _ (
                  move-IsTablesOnly d laws before ready.apart _ _ dst_offset _ src_offset size s1
                    (inr (place s1 t1, place5 s1 t1, fits)) t1)))
              (λ h. t1))
            λ _ s2 t2.
              Ends-bind _ _
                (Ends-when (ltb m.data_start dst_offset) _ s2
                  (λ h. Ends-renamed _ _ (
                    Ends-any _ (
                      move-IsTablesOnly d laws before ready.apart _ _ m.data_start _ m.data_start _
                        s2
                        (inr (
                          place s1 t1,
                          place5 s1 t1,
                          omega (arith, ltb→lt m.data_start dst_offset h, fits),
                        ))
                        t2)))
                  (λ h. t2))
                λ _ s3 t3.
                  Ends-bind _ _
                    (Ends-undone _ _ (
                      update_block-IsTablesOnly d laws before ready m.phys_id lblock _ _ lt
                        (with_data_scratch _ m.phys_id lblock s3 pos t3)))
                    λ _ s4 t4.
                      Ends-weaken _
                        (Ends-undone _ _
                          (copy_blocks-IsTablesOnly d laws before ready m.phys_id lblock s4 lt t4))
                        λ _ s5 t5. data_blank t5
    where
      same :
          (s1 : Storage)
          → IsTablesOnly before before.meta_block_header.scratch_idx s1
          → cur_data_scratch lblock s1 ≡ before.meta_block_header.scratch_idx
      same s1 t1 =
          if_ne {k = lblock} {j = 0} s1.scratch_metablock _ (λ e. absurd (omega (arith, e)))
          ∙ t1.data_scratch

      place :
          (s1 : Storage)
          → IsTablesOnly before before.meta_block_header.scratch_idx s1
          → 2 ≤ cur_data_scratch lblock s1
      place s1 t1 = omega (arith, same s1 t1, ready.scratch_lo)

      place5 :
          (s1 : Storage)
          → IsTablesOnly before before.meta_block_header.scratch_idx s1
          → cur_data_scratch lblock s1 < 5
      place5 s1 t1 = omega (arith, same s1 t1, ready.scratch_hi)

  -- The entry of an object with the id.
  abbrev IsEntryOf : ℕ → ℕ → Type 0
  IsEntryOf uuid k = (k < num_assets) × ((object_entry (active_of before) k).unique_id ≡ uuid)

  object_idx_loop-Stage :
      (uuid k rounds : ℕ) (s : Storage)
      → k + rounds ≡ num_assets
      → Stage before blank s
      → Ends
          (object_idx_loop d uuid k rounds s)
          (λ i s'. Stage before blank s' × IsEntryOf uuid i)
          Anything
  unfolding object_idx_loop
  object_idx_loop-Stage uuid k zero s e st = record { holds = tt }
  object_idx_loop-Stage uuid k (suc rounds) s e st =
      Ends-bind _ _
        (Ends-any _ (
          Ends-renamed _ _
            (read_object_meta-Stage d laws before ready.apart blank k s (omega arith) st)))
        λ m s1 r. elim (Bool-cases (m.unique_id == uuid)) [
          | inl found ↦ rw found (
              Ends-done _ s1 (
                r.0,
                (
                  omega arith,
                  sym (ap (λ (x : AssetMeta). x.unique_id) r.1) ∙ is_eq m.unique_id found,
                ),
              ))
          | inr other ↦ rw other (object_idx_loop-Stage uuid (k + 1) rounds s1 (omega arith) r.0)
        ]
    where
      is_eq : (n : ℕ) → (n == uuid) ≡ true → n ≡ uuid
      is_eq n e = ground arith

  from_stage :
      {s : Storage}
      → Stage before blank s
      → IsTablesOnly before before.meta_block_header.scratch_idx s
  from_stage {s = s} st = record {
    active = st.staged.active;
    scratch = st.staged.scratch;
    data_scratch = ap (λ (h : Header). h.scratch_idx) st.staged.header;
    kept = λ x a h. unchanged x h;
  }
    where
      offset : ℕ → ℕ
      offset x = x - phys_address before.scratch_metablock 0

      unchanged :
          (x : ℕ)
          → (x < phys_address before.scratch_metablock header_size)
            ⊎ (phys_address before.scratch_metablock all_metadata_size ≤ x)
          → s.flash x ≡ before.flash x
      unchanged x (inl h) = st.staged.kept x (inl h)
      unchanged x (inr h) = elim (dec_lt x (phys_address before.scratch_metablock block_size)) [
        | yes a ↦
            let place : x ≡ phys_address before.scratch_metablock (offset x) =
              omega (arith, ready.apart) in
            ap s.flash place
            ∙ st.holds (offset x) (omega (arith, ready.apart)) (omega (arith, ready.apart))
            ∙ sym (ready.erased (offset x) (omega (arith, ready.apart)))
            ∙ ap before.flash (sym place)
        | no a ↦ st.staged.kept x (inr (omega arith))
      ]

  -- Every entry with the id describes an object in an existing block other than 0.
  abbrev pub IsElsewhere : ℕ → Type 0
  IsElsewhere uuid =
      (k : ℕ)
      → k < num_assets
      → (object_entry (active_of before) k).unique_id ≡ uuid
      → (0 < (object_entry (active_of before) k).lblock)
        × ((object_entry (active_of before) k).lblock < 3)
        × ((object_entry (active_of before) k).data_index ≤ block_size)

  -- In a ready file system, where the objects with the id lie in an existing block other than 0 and
  -- begin inside it: if deleting one comes to the point where the metadata header is written, the data
  -- area of the new metadata block is erased, whatever data block 0 held.
  pub stage_deletion-IsDataBlank :
      (uuid : ℕ)
      → IsElsewhere uuid
      → Ends (stage_deletion d uuid before) (λ _. IsDataBlank) Anything
  unfolding stage_deletion get_object_idx
  stage_deletion-IsDataBlank uuid elsewhere =
      Ends-bind _ _
        (Ends-renamed _ _ (
          object_idx_loop-Stage uuid 0 num_assets before refl
            record { staged = IsStaged-refl before; holds = λ o a b. ready.erased o b }))
        λ i s1 f.
          Ends-bind _ _
            (Ends-any _ (read_object_meta-Stage d laws before ready.apart blank i s1 f.1.0 f.0))
            λ del s2 r.
              let at = elsewhere i f.1.0 f.1.1 in
              let block : del.lblock ≡ (object_entry (active_of before) i).lblock =
                ap (λ (x : AssetMeta). x.lblock) r.1 in
              let index : del.data_index ≡ (object_entry (active_of before) i).data_index =
                ap (λ (x : AssetMeta). x.data_index) r.1 in
              Ends-bind _ _
                (Ends-when (not (succeeded (validate_uuid del.unique_id))) _ s2
                  (λ h. record { holds = tt }) (λ h. from_stage r.0))
                λ _ s3 t3.
                  Ends-bind _ _
                    (Ends-any _
                      (put_object-IsTablesOnly d laws before ready _ i (released del) s3 f.1.0 t3))
                    λ _ s4 t4.
                      Ends-bind _ _
                        (Ends-any _ (
                          move_loop-IsTablesOnly d laws before ready _ i del _ no_moves 0 num_assets
                            s4 refl t4))
                        λ mv s5 t5.
                          compact-IsDataBlank del.lblock _ mv.src_offset del.data_index
                            mv.nbr_bytes_to_move s5 (omega (arith, block, at.0))
                            (omega (arith, block, at.1)) (omega (arith, index, at.2)) t5
