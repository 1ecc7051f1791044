-- ===== src/Store/ObjectWrite.antt =====
-- Writing into an object of block 0, whatever happens in between.
use tfm_demo.Prelude.{ℕ, ◌+◌, ◌≤◌, ◌<◌, ◌≡◌, ◌⊎◌, sym, ap, subst, ◌∙◌, arith, inl, inr}
use tfm_demo.AuditLog.Buffer.{Bytes}
use tfm_demo.Store.Layout.{block_size, header_size, object_meta_offset, block_meta_offset}
use tfm_demo.Store.Effects.{Storage}
use tfm_demo.Store.Flash.{Driver, IsFlash}
use tfm_demo.Store.Meta.{BlockMetadata}
use tfm_demo.Store.Write.{object_write}
use tfm_demo.Store.Ends.{Ends, Ends-bind, Ends-weaken, Ends-loosen}
use tfm_demo.Store.Staged.{object_entry, active_of}
use tfm_demo.Store.Entries.{to_assetmeta_agree, to_block_metadata_agree}
use tfm_demo.Store.EntryReads.{IsFirst}
use tfm_demo.Store.Ready.{IsReady}
use tfm_demo.Store.ReadyAgain.{IsCommitted-IsReady, same_tables, IsStaged-OldKept}
use tfm_demo.Store.Committed.{IsCommitted, update_finalize-IsCommitted}
use tfm_demo.Store.Kept.{Committed, OldKept}
use tfm_demo.Store.Composed.{CanHold}
use tfm_demo.Store.WriteLaws.{HasWritten, WhyNot, stage_write-HasWritten}

HasWritten-agree :
    (old new new' content : Bytes) (metablock i offset size : ℕ)
    → ((o : ℕ) → header_size ≤ o → o < block_size → new' o ≡ new o)
    → header_size ≤ (object_entry old i).data_index
    → (object_entry old i).data_index + (offset + size) ≤ block_size
    → HasWritten old new content metablock i offset size
    → HasWritten old new' content metablock i offset size
HasWritten-agree old new new' content metablock i offset size h lo hi c = record {
  objects = λ k l.
      to_assetmeta_agree _ _ (λ x b. h (object_meta_offset k + x) (omega arith) (omega arith))
      ∙ c.objects k l;
  blocks = λ k l.
      to_block_metadata_agree _ _ (λ x b. h (block_meta_offset k + x) (omega arith) (omega arith))
      ∙ c.blocks k l;
  written = λ k l. h _ (omega (arith, lo)) (omega (arith, hi)) ∙ c.written k l;
  kept = λ o a b out. h o (omega arith) (omega arith) ∙ c.kept o a b out;
}

module _ (d : Driver) (laws : IsFlash d) (before : Storage) (ready : IsReady before)
    (uuid i offset size : ℕ) (content : Bytes) (first : IsFirst before uuid i)
    (hold : CanHold before (object_entry (active_of before) i) (offset + size)) where
  -- The bytes are there, and the file system is ready again.
  pub record IsObjectWritten (now : Storage) : Type 0 where
    pub ready_again : IsReady now
    pub written :
        HasWritten (active_of before) (active_of now) content now.active_metablock i offset size
    pub swapped : now.active_metablock ≡ before.scratch_metablock

  -- Where it stops, the old block is as it was, or the new one is complete, its header included.
  abbrev pub NeverTorn : Storage → Type 0
  NeverTorn now =
      OldKept before now
      ⊎ ((new : Bytes) × (Committed before new now)
          × (HasWritten (active_of before) new content before.scratch_metablock i offset size))

  finish :
      (new : Bytes) (now : Storage)
      → HasWritten (active_of before) new content before.scratch_metablock i offset size
      → IsCommitted d laws before ready.apart
          (λ o a. ready.erased o (omega arith))
          ready.scratch_hi
          new
          now
      → IsObjectWritten now
  finish new now w f = record {
    ready_again = IsCommitted-IsReady before ready d laws new now f (
        omega
          (arith, ready.apart, ap (λ (m : BlockMetadata). m.phys_id) (w.blocks 0 (omega arith))));
    written =
        subst (λ (n : ℕ). HasWritten (active_of before) (active_of now) content n i offset size)
          (sym f.active)
          (HasWritten-agree _ new (active_of now) content _ i offset size
            (same_tables before ready d laws new now f) (omega (arith, hold.lo))
            (omega (arith, hold.hi, hold.room)) w);
    swapped = f.active;
  }

  never_torn :
      (new : Bytes) (now : Storage)
      → HasWritten (active_of before) new content before.scratch_metablock i offset size
      → OldKept before now ⊎ Committed before new now
      → NeverTorn now
  never_torn new now w (inl old) = inl old
  never_torn new now w (inr c) = inr (new, c, w)

  -- In a ready file system whose block 0 holds the object with room for the range: writing comes
  -- back with success, the file system ready again, the object's size now the larger of what it
  -- was and the end of the range, the range holding the bytes and all other entries and data of
  -- block 0 those of before; or the flash failed, the tables were not valid, or the range starts
  -- behind the object, and then the old metadata block is as it was or the new one is complete.
  pub object_write-IsObjectWritten :
      Ends
        (object_write d uuid content offset size before)
        (λ _. IsObjectWritten)
        (λ now. NeverTorn now × WhyNot d before i offset)
  unfolding object_write
  object_write-IsObjectWritten =
      Ends-bind _ _
        (Ends-loosen _
          (stage_write-HasWritten d laws before ready uuid i offset size content first hold)
          λ s st. (inl (IsStaged-OldKept before ready s st.0), st.1))
        λ _ s1 c.
          Ends-weaken _
            (Ends-loosen _
              (update_finalize-IsCommitted d laws before ready.apart
                (λ o a. ready.erased o (omega arith)) ready.scratch_hi c.0 s1 ready.scratch_lo c.1)
              (λ s2 e. (never_torn c.0 s2 c.2 e.0, inl λ w v. e.1 w)))
            λ _ s2 f. finish c.0 s2 c.2 f
