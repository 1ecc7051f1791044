-- ===== src/Store/ReadBack.antt =====
-- Reading what has been written into an object of block 0.
use tfm_demo.Prelude.{
  ℕ, ◌+◌, ◌≤◌, ◌<◌, ◌≡◌, add32, refl, sym, ap, ◌∙◌, arith, inl, inr, word, if_eq, if_ne,
}
use native.Mathlib.Decide.{ℕ_discrete}
use tfm_demo.AuditLog.Buffer.{Bytes}
use tfm_demo.Sst.Utils.{SstErr}
use tfm_demo.Store.Layout.{num_assets}
use tfm_demo.Store.Effects.{Storage, continue}
use tfm_demo.Store.Flash.{Driver, IsFlash, phys_address}
use tfm_demo.Store.Meta.{AssetMeta, BlockMetadata}
use tfm_demo.Store.Validate.{validate_block_meta, validate_object_meta}
use tfm_demo.Store.Write.{object_write}
use tfm_demo.Store.Read.{object_read}
use tfm_demo.Store.Ends.{Ends, Ends-bind, Ends-weaken, Ends-loosen}
use tfm_demo.Store.Staged.{HasValidTables, block_entry, object_entry, active_of}
use tfm_demo.Store.EntryReads.{IsFirst}
use tfm_demo.Store.ReadLaws.{IsContents, IsNotRead, object_read-IsContents}
use tfm_demo.Store.Ready.{IsReady}
use tfm_demo.Store.Composed.{CanHold}
use tfm_demo.Store.WriteLaws.{written_entry, WhyNot, first_unique}
use tfm_demo.Store.ObjectWrite.{IsObjectWritten, object_write-IsObjectWritten}

moved_valid :
    (b : BlockMetadata) (n : ℕ)
    → n ≤ 1
    → b.phys_id ≤ 1
    → validate_block_meta b ≡ SstErr.success
    → validate_block_meta (record b { phys_id = n }) ≡ SstErr.success
unfolding validate_block_meta
moved_valid b n small low e = ground (arith, e)

written_valid :
    (m : AssetMeta) (end : ℕ)
    → end ≤ m.max_size
    → validate_object_meta m ≡ SstErr.success
    → validate_object_meta (written_entry m end) ≡ SstErr.success
unfolding validate_object_meta
written_valid m end room e = ground (arith, e)

module _ (d : Driver) (laws : IsFlash d) (before : Storage) (ready : IsReady before)
    (uuid i offset size : ℕ) (content : Bytes) (first : IsFirst before uuid i)
    (hold : CanHold before (object_entry (active_of before) i) (offset + size)) where
  abbrev m : AssetMeta
  m = object_entry (active_of before) i

  module _ (now : Storage)
      (w : IsObjectWritten d laws before ready uuid i offset size content first hold now) where
    same_id :
        (k : ℕ)
        → k < num_assets
        → (object_entry (active_of now) k).unique_id ≡ (object_entry (active_of before) k).unique_id
    same_id k l = elim (ℕ_discrete k i) [
      | yes e ↦
          ap (λ (x : AssetMeta). x.unique_id) (w.written.objects k l ∙ if_eq _ _ e)
          ∙ ap (λ (n : ℕ). (object_entry (active_of before) n).unique_id) (sym e)
      | no ne ↦ ap (λ (x : AssetMeta). x.unique_id) (w.written.objects k l ∙ if_ne _ _ ne)
    ]

    first_now : IsFirst now uuid i
    first_now = (
      first.0,
      same_id i first.0 ∙ first.1,
      λ j l e. first.2 j l (sym (same_id j (omega (arith, first.0))) ∙ e),
    )

    grown_entry :
        object_entry (active_of now) i
        ≡ written_entry (object_entry (active_of before) i) (offset + size)
    grown_entry = w.written.objects i first.0 ∙ if_eq {k = i} _ m refl

    at_start : (k : ℕ) → k ≡ 0 → (block_entry (active_of before) k).phys_id ≤ 1
    at_start k z =
        omega (arith, ready.block0, ap (λ (n : ℕ). (block_entry (active_of before) n).phys_id) z)

    valid_now : HasValidTables (active_of before) → HasValidTables (active_of now)
    valid_now v = record {
      blocks = λ k l. ap validate_block_meta (w.written.blocks k l) ∙ (elim (ℕ_discrete k 0) [
        | yes z ↦
            ap validate_block_meta (if_eq _ _ z)
            ∙ moved_valid (block_entry (active_of before) k) now.active_metablock
                (omega (arith, w.ready_again.apart)) (at_start k z) (v.blocks k l)
        | no nz ↦ ap validate_block_meta (if_ne _ _ nz) ∙ v.blocks k l
      ]);
      objects = λ k l. ap validate_object_meta (w.written.objects k l) ∙ (elim (ℕ_discrete k i) [
        | yes e ↦
            ap validate_object_meta (if_eq _ _ e)
            ∙ written_valid m (offset + size) hold.room (v.objects i first.0)
        | no ne ↦ ap validate_object_meta (if_ne _ _ ne) ∙ v.objects k l
      ]);
    }

    read_back :
        (b : Bytes)
        → IsContents d laws now w.ready_again.apart uuid offset size b
        → (k : ℕ) → k < size
        → b k ≡ content k
    read_back b c k l = c.bytes k l ∙ ap now.flash place ∙ w.written.written k l
      where
        entry : object_entry (active_of now) c.entry ≡ written_entry m (offset + size)
        entry =
            ap (object_entry (active_of now)) (first_unique now uuid c.entry i c.first first_now)
            ∙ grown_entry

        block :
            (block_entry (active_of now) (object_entry (active_of now) c.entry).lblock).phys_id
            ≡ now.active_metablock
        block =
            ap (λ (x : AssetMeta). (block_entry (active_of now) x.lblock).phys_id) entry
            ∙ ap (λ (n : ℕ). (block_entry (active_of now) n).phys_id) hold.zeroth
            ∙ ap (λ (x : BlockMetadata). x.phys_id) (w.written.blocks 0 (omega arith))

        place :
            phys_address
                (block_entry (active_of now) (object_entry (active_of now) c.entry).lblock).phys_id
                (add32 (object_entry (active_of now) c.entry).data_index offset)
              + k
            ≡ phys_address now.active_metablock (m.data_index + (offset + k))
        place =
            omega (arith, block, ap (λ (x : AssetMeta). x.data_index) entry, hold.hi, hold.room, l)

    -- A failure to read means that the flash or the tables were at fault before.
    blame :
        (s : Storage)
        → IsNotRead d laws now w.ready_again.apart uuid offset size s
        → WhyNot d before i offset
    blame s (q, inl f) = inl λ works v. f works (valid_now v)
    blame s (q, inr (inl a)) = absurd (a i first.0 first_now.1)
    blame s (q, inr (inr (j, fj, short))) = absurd (
        too_short
          (ap (object_entry (active_of now)) (first_unique now uuid j i fj first_now) ∙ grown_entry)
          short)
      where
        too_short :
            {e : AssetMeta} → e ≡ written_entry m (offset + size) → e.cur_size < offset + size → ⊥
        too_short same h = ground (arith, ap (λ (x : AssetMeta). x.cur_size) same)

  -- In a ready file system whose block 0 holds the object with room for the range: what is written
  -- into the object is what is read at the same range, whatever contents it had; an error or a loss of
  -- power means a faulty flash, tables that were not valid, or a range that starts behind the object.
  pub object_read-object_write :
      offset < word
      → size < word
      → Ends
          (continue
            (object_write d uuid content offset size before)
            λ _. object_read d uuid offset size)
          (λ b s. (k : ℕ) → k < size → b k ≡ content k)
          (λ s. WhyNot d before i offset)
  object_read-object_write offset32 size32 =
      Ends-bind _ _
        (Ends-loosen _
          (object_write-IsObjectWritten d laws before ready uuid i offset size content first hold)
          λ s f. f.1)
        λ _ now w.
          Ends-weaken _
            (Ends-loosen _
              (object_read-IsContents d laws now w.ready_again.apart uuid offset size offset32
                size32)
              (blame now w))
            λ b s r. read_back now w b r.1
