-- ===== src/Store/CreateLaws.antt =====
-- Creating an object, whatever happens in between.
use tfm_demo.Prelude.{
  ℕ, Option, none, some, ◌==◌, ◌<◌, ◌≡◌, ◌≢◌, ◌⊎◌, refl, sym, ap, subst, arith, inl, inr, word,
  Bool-cases, true, false,
}
use tfm_demo.AuditLog.Buffer.{Bytes}
use tfm_demo.Store.Layout.{metadata_invalid_index, flash_program_unit}
use tfm_demo.Store.Effects.{Storage}
use tfm_demo.Store.Flash.{Driver, IsFlash}
use tfm_demo.Store.Meta.{BlockMetadata}
use tfm_demo.Store.Validate.{get_aligned_flash_bytes}
use tfm_demo.Store.Tables.{Reserved}
use tfm_demo.Store.Create.{stage_creation, place_object, object_create}
use tfm_demo.Store.Ends.{
  Ends, Ends-bind, Ends-weaken, Ends-loosen, Ends-tried, Ends-renamed, IfSome,
}
use tfm_demo.Store.Staged.{IsStaged, IsStaged-refl, Stage, Faulty, block_of, blank, active_of}
use tfm_demo.Store.StagedCreation.{stage_tables-Stage}
use tfm_demo.Store.Reserve.{
  aligned, IsReserved, NoRoom, NoFree, NotReserved, reserve_object-Stage,
  get_free_object_index-Stage,
}
use tfm_demo.Store.Committed.{IsCommitted, update_finalize-IsCommitted}
use tfm_demo.Store.Kept.{Committed, OldKept}
use tfm_demo.Store.ReadyAgain.{IsCommitted-IsReady, same_tables, IsStaged-OldKept}
use tfm_demo.Store.Ready.{IsReady, HasNew, HasNew-agree}

module _ (d : Driver) (laws : IsFlash d) (before : Storage) (ready : IsReady before) (uuid size : ℕ)
    (uuid32 : uuid < word) (size32 : size < word) where
  start : Stage before blank before
  start = record { staged = IsStaged-refl before; holds = λ o a b. ready.erased o b }

  -- The state when the header is about to be written.
  abbrev pub IsReadyToCommit : Storage → Type 0
  IsReadyToCommit s =
      (new : Bytes) × (Stage before new s) × (HasNew before uuid size before.scratch_metablock new)

  -- Whatever contents there are.
  as_is : (s : Storage) → IsStaged before s → Stage before (block_of s before.scratch_metablock) s
  as_is s st = record { staged = st; holds = λ o a b. refl }

  -- Why there is no new object: the flash or the tables are at fault, no block has room, or no entry
  -- is free.
  abbrev pub Why : Type 0
  Why = Faulty d before ⊎ (NoRoom (active_of before) size ⊎ NoFree (active_of before))

  abbrev pub Unstaged : Storage → Type 0
  Unstaged s = IsStaged before s × Why

  no_room :
      Faulty d before ⊎ NoRoom (active_of before) (get_aligned_flash_bytes flash_program_unit size)
      → Why
  no_room (inl x) = inl x
  no_room (inr x) =
      inr (inl (subst (λ (n : ℕ). NoRoom (active_of before) n) (aligned size size32) x))

  place_object-IsStaged :
      (o : Option Reserved) (s : Storage)
      → IfSome
          (λ r s'.
            Stage before blank s'
            × IsReserved (active_of before) (get_aligned_flash_bytes flash_program_unit size) r)
          (NotReserved d laws before ready.apart (get_aligned_flash_bytes flash_program_unit size))
          o
          s
      → Ends (place_object d uuid size o s) (λ _. IsReadyToCommit) Unstaged
  unfolding place_object
  place_object-IsStaged none s h =
      Ends-bind _ _
        (Ends-loosen _ (get_free_object_index-Stage d laws before ready.apart _ s (as_is s h.0))
          λ s' f. (f.0, inl f.1))
        λ j s1 f. record { holds = (f.0, no_room h.1) }
  place_object-IsStaged (some r) s h =
      Ends-bind _ _
        (Ends-loosen _ (get_free_object_index-Stage d laws before ready.apart blank s h.0)
          λ s' f. (f.0, inl f.1))
        λ j s1 f. elim (Bool-cases (j == metadata_invalid_index)) [
          | inl none_free ↦
              rw none_free (record { holds = (f.0, none_left (f.2 (is_invalid j none_free))) })
          | inr some_free ↦
              let found = f.1 (is_index j some_free) in
              rw some_free (
                Ends-weaken _
                  (Ends-loosen _
                    (stage_tables-Stage d laws before ready.apart uuid size j r found.1.0 uuid32
                      size32 h.1 s1 (omega (arith, ready.block0, ready.apart)) found.0)
                    λ s' f. (f.0, inl f.1))
                  λ _ s2 t. (
                    t.0,
                    t.1,
                    record {
                      entry = j;
                      place = r;
                      free = found.1;
                      reserved =
                          subst (λ (n : ℕ). IsReserved (active_of before) n r) (aligned size size32)
                            h.1;
                      tables = t.2;
                    },
                  ))
        ]
    where
      none_left : Faulty d before ⊎ NoFree (active_of before) → Why
      none_left (inl x) = inl x
      none_left (inr x) = inr (inr x)

      is_invalid : (j : ℕ) → (j == metadata_invalid_index) ≡ true → j ≡ metadata_invalid_index
      is_invalid j e = ground arith

      is_index : (j : ℕ) → (j == metadata_invalid_index) ≡ false → j ≢ metadata_invalid_index
      is_index j e = ground arith

  -- Before the header is written, an error or a loss of power leaves the context and the flash as
  -- they were, but for what lies behind the header of the scratch metadata block.
  pub stage_creation-IsStaged :
      Ends (stage_creation d uuid size before) (λ _. IsReadyToCommit) Unstaged
  unfolding stage_creation
  stage_creation-IsStaged =
      Ends-bind _ _
        (Ends-loosen _
          (Ends-tried _ (reserve_object-Stage d laws before ready.apart blank size before start))
          λ s f. (f.0, no_room f.1))
        place_object-IsStaged

  -- The object is there, and the file system is ready again.
  pub record IsObjectCreated (now : Storage) : Type 0 where
    pub ready_again : IsReady now
    pub created : HasNew before uuid size now.active_metablock (active_of now)
    pub swapped : now.active_metablock ≡ before.scratch_metablock

  -- Where it stops, the old block is as it was, or the new one is complete, its header included.
  abbrev pub NeverTorn : Storage → Type 0
  NeverTorn now =
      OldKept before now
      ⊎ ((new : Bytes) × (Committed before new now)
          × (HasNew before uuid size before.scratch_metablock new))

  never_torn :
      (s1 : Storage) (c : IsReadyToCommit s1) (s2 : Storage)
      → OldKept before s2 ⊎ Committed before c.0 s2
      → NeverTorn s2
  never_torn s1 c s2 (inl old) = inl old
  never_torn s1 c s2 (inr new) = inr (c.0, new, c.2)

  finish :
      (s1 s2 : Storage) (c : IsReadyToCommit s1)
      → IsCommitted d laws before ready.apart
          (λ o a. ready.erased o (omega arith))
          ready.scratch_hi
          c.0
          s2
      → IsObjectCreated s2
  finish s1 s2 c f = record {
    ready_again = IsCommitted-IsReady before ready d laws c.0 s2 f (
        omega (
          arith,
          ready.apart,
          ap (λ (m : BlockMetadata). m.phys_id) (c.2.tables.blocks 0 (omega arith)),
        ));
    created =
        subst (λ (n : ℕ). HasNew before uuid size n (active_of s2)) (sym f.active)
          (HasNew-agree before uuid size before.scratch_metablock c.0 (active_of s2)
            (same_tables before ready d laws c.0 s2 f) c.2);
    swapped = f.active;
  }

  -- In a ready file system, for a 32-bit id and size: creating an object comes back with success, the
  -- file system ready again and the tables those of before, but that a free entry has the id, the
  -- size as the maximal one and 0 as the current one, and the first block with room has given the
  -- object the space at the beginning of its free bytes; or the flash failed, the tables were not
  -- valid, or there was no room or no free entry, and then the old metadata block is as it was or the
  -- new one is complete.
  pub object_create-IsObjectCreated :
      Ends (object_create d uuid size before) (λ _. IsObjectCreated) (λ now. NeverTorn now × Why)
  unfolding object_create
  object_create-IsObjectCreated =
      Ends-bind _ _
        (Ends-loosen _ stage_creation-IsStaged
          λ s st. (inl (IsStaged-OldKept before ready s st.0), st.1))
        λ _ s1 c. Ends-renamed _ _ (
          Ends-weaken _
            (Ends-loosen _
              (update_finalize-IsCommitted d laws before ready.apart
                (λ o a. ready.erased o (omega arith)) ready.scratch_hi c.0 s1 ready.scratch_lo c.1)
              (λ s2 e. (never_torn s1 c s2 e.0, inl λ w v. e.1 w)))
            λ _ s2 f. finish s1 s2 c f)
