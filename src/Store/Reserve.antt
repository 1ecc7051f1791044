-- ===== src/Store/Reserve.antt =====
-- Where a new object goes: the first block with room, and a free entry of the table of objects.
use tfm_demo.Prelude.{
  ℕ, zero, suc, Option, none, some, ◌+◌, ◌≤◌, ◌<◌, ◌≡◌, ◌≢◌, ◌==◌, ◌⊎◌, leb, leb→le, true, false,
  subst, sym, Bool-cases, refl, ap, ◌∙◌, arith, inl, inr, word,
}
use native.Mathlib.Decide.{dec_lt}
use tfm_demo.AuditLog.Buffer.{Bytes}
use tfm_demo.Sst.Utils.{validate_uuid, invalid_uuid}
use tfm_demo.Store.Layout.{
  block_size, num_assets, num_active_dblocks, metadata_invalid_index, flash_program_unit,
}
use tfm_demo.Store.Effects.{Storage, Action}
use tfm_demo.Store.Flash.{Driver, IsFlash}
use tfm_demo.Store.Meta.{BlockMetadata, AssetMeta}
use tfm_demo.Store.Validate.{get_aligned_flash_bytes}
use tfm_demo.Store.Tables.{
  Reserved, reserve_loop, reserve_object, free_or, free_object_loop, get_free_object_index,
}
use tfm_demo.Store.Ends.{Ends, Ends-bind, Ends-done, Ends-renamed, Ends-tried, Ends-loosen, IfSome}
use tfm_demo.Store.Staged.{
  IsStaged, Stage, HasMetaBlocks, Faulty, block_entry, object_entry, active_of, Fails,
}
use tfm_demo.Store.Entries.{IsBlockMeta}
use tfm_demo.Store.Staging.{read_block_metadata-Stage, read_object_meta-Stage}

-- The first block of the table with room for the bytes; they start where its free bytes did, and are
-- taken from these.
pub record IsReserved (table : Bytes) (bytes : ℕ) (r : Reserved) : Type 0 where
  pub block : r.lblock < num_active_dblocks
  pub valid : IsBlockMeta (block_entry table r.lblock)
  pub room : bytes ≤ (block_entry table r.lblock).free_size
  pub index : r.data_index + (block_entry table r.lblock).free_size ≡ block_size
  pub taken : r.block_meta.free_size + bytes ≡ (block_entry table r.lblock).free_size
  pub same_block : r.block_meta.phys_id ≡ (block_entry table r.lblock).phys_id
  pub same_start : r.block_meta.data_start ≡ (block_entry table r.lblock).data_start
  pub first : (i : ℕ) → i < r.lblock → (block_entry table i).free_size < bytes

abbrev pub IsFree : Bytes → ℕ → Type 0
IsFree table j = (j < num_assets) × ((object_entry table j).unique_id ≡ invalid_uuid)

-- No block has room for the bytes; no entry is free.
abbrev pub NoRoom : Bytes → ℕ → Type 0
NoRoom table bytes = (k : ℕ) → k < num_active_dblocks → (block_entry table k).free_size < bytes

abbrev pub NoFree : Bytes → Type 0
NoFree table = (k : ℕ) → k < num_assets → (object_entry table k).unique_id ≢ invalid_uuid

-- A fact of the numbers below `i`, and of `i`, is one of those below `i + 1`.
widen : {P : ℕ → Type 0} (i : ℕ) → ((k : ℕ) → k < i → P k) → P i → (k : ℕ) → k < i + 1 → P k
widen {P} i h here k l = elim (dec_lt k i) [
  | yes a ↦ h k a
  | no a ↦ let same : i ≡ k = omega arith in subst P same here
]

-- With a program unit of one byte a size needs no padding.
pub aligned : (n : ℕ) → n < word → get_aligned_flash_bytes flash_program_unit n ≡ n
unfolding get_aligned_flash_bytes
aligned n h = ground arith

module _ (d : Driver) (laws : IsFlash d) (before : Storage) (apart : HasMetaBlocks before) where
  -- Where no block is found.
  abbrev pub NotReserved : ℕ → Storage → Type 0
  NotReserved bytes s = IsStaged before s × (Faulty d before ⊎ NoRoom (active_of before) bytes)

  reserve_loop-Stage :
      (contents : Bytes) (bytes i rounds : ℕ) (s : Storage)
      → i + rounds ≡ num_active_dblocks
      → ((k : ℕ) → k < i → (block_entry (active_of before) k).free_size < bytes)
      → Stage before contents s
      → Ends
          (reserve_loop d bytes i rounds s)
          (λ r s'. Stage before contents s' × IsReserved (active_of before) bytes r)
          (NotReserved bytes)
  unfolding reserve_loop
  reserve_loop-Stage contents bytes i zero s e h st = record {
    holds = (st.staged, inr λ k l. h k (omega arith));
  }
  reserve_loop-Stage contents bytes i (suc rounds) s e h st =
      Ends-bind _ _
        (Ends-renamed _ _ (
          Ends-loosen _
            (read_block_metadata-Stage d laws before apart contents i s (omega arith) st)
            λ s' f. (f.0, inl f.1)))
        λ m s1 r. elim (Bool-cases (leb bytes m.free_size)) [
          | inl fits ↦ rw fits (
              Ends-done _ s1 (
                r.0,
                record {
                  block = omega arith;
                  valid = subst IsBlockMeta r.2 r.1;
                  room = omega (arith, leb→le bytes m.free_size fits, free r.2);
                  index = omega (arith, r.1.room, free r.2);
                  taken = omega (arith, r.1.room, leb→le bytes m.free_size fits, free r.2);
                  same_block = ap (λ (x : BlockMetadata). x.phys_id) r.2;
                  same_start = ap (λ (x : BlockMetadata). x.data_start) r.2;
                  first = h;
                },
              ))
          | inr small ↦ rw small (
              reserve_loop-Stage contents bytes (i + 1) rounds s1 (omega arith)
                (widen i h (omega (arith, too_small m.free_size small, free r.2))) r.0)
        ]
    where
      free :
          {m : BlockMetadata}
          → m ≡ block_entry (active_of before) i
          → m.free_size ≡ (block_entry (active_of before) i).free_size
      free e = ap (λ (x : BlockMetadata). x.free_size) e

      too_small : (n : ℕ) → leb bytes n ≡ false → n < bytes
      too_small n e = ground arith

  -- The block is the first one with room for the object.
  pub reserve_object-Stage :
      (contents : Bytes) (size : ℕ) (s : Storage)
      → Stage before contents s
      → Ends
          (reserve_object d size s)
          (λ r s'.
            Stage before contents s'
            × IsReserved (active_of before) (get_aligned_flash_bytes flash_program_unit size) r)
          (NotReserved (get_aligned_flash_bytes flash_program_unit size))
  unfolding reserve_object
  reserve_object-Stage contents size s st =
      reserve_loop-Stage contents _ 0 num_active_dblocks s refl (λ k l. absurd (omega arith)) st

  -- An index other than the invalid one is that of a free entry.
  abbrev pub Found : Bytes → ℕ → Storage → Type 0
  Found contents j s =
      IsStaged before s
      × (j ≢ metadata_invalid_index → Stage before contents s × IsFree (active_of before) j)
      × (j ≡ metadata_invalid_index → Faulty d before ⊎ NoFree (active_of before))

  visit-Found :
      (contents : Bytes) (i : ℕ) (rest : Action ℕ) (o : Option AssetMeta) (s : Storage)
      → i < num_assets
      → ((s' : Storage)
          → (object_entry (active_of before) i).unique_id ≢ invalid_uuid
          → Stage before contents s'
          → Ends (rest s') (Found contents) (Fails d before))
      → IfSome
          (λ m s'. Stage before contents s' × (m ≡ object_entry (active_of before) i))
          (Fails d before)
          o
          s
      → Ends (free_or i rest o s) (Found contents) (Fails d before)
  unfolding free_or validate_uuid
  visit-Found contents i rest none s lt k h =
      Ends-done _ s (h.0, λ ne. absurd (ne refl), λ e. inl h.1)
  visit-Found contents i rest (some m) s lt k h = elim (Bool-cases (m.unique_id == invalid_uuid)) [
    | inl free ↦ rw free (
        Ends-done _ s (
          h.0.staged,
          λ ne. (h.0, (lt, sym same_id ∙ zero_id m.unique_id free)),
          λ e. absurd (omega arith),
        ))
    | inr used ↦ rw used (k s (λ e. in_use m.unique_id used (same_id ∙ e)) h.0)
  ]
    where
      same_id : m.unique_id ≡ (object_entry (active_of before) i).unique_id
      same_id = ap (λ (x : AssetMeta). x.unique_id) h.1

      zero_id : (n : ℕ) → (n == invalid_uuid) ≡ true → n ≡ invalid_uuid
      zero_id n e = ground arith

      in_use : (n : ℕ) → (n == invalid_uuid) ≡ false → n ≢ invalid_uuid
      in_use n e = ground arith

  free_object_loop-Stage :
      (contents : Bytes) (i rounds : ℕ) (s : Storage)
      → i + rounds ≡ num_assets
      → ((k : ℕ) → k < i → (object_entry (active_of before) k).unique_id ≢ invalid_uuid)
      → Stage before contents s
      → Ends (free_object_loop d i rounds s) (Found contents) (Fails d before)
  unfolding free_object_loop
  free_object_loop-Stage contents i zero s e used st = record {
    holds = (st.staged, λ ne. absurd (ne refl), λ q. inr λ k l. used k (omega arith));
  }
  free_object_loop-Stage contents i (suc rounds) s e used st =
      Ends-bind _ _
        (Ends-tried _ (read_object_meta-Stage d laws before apart contents i s (omega arith) st))
        λ o s1 h.
          visit-Found contents i _ o s1 (omega arith)
            (λ s2 more st2.
              free_object_loop-Stage contents (i + 1) rounds s2 (omega arith) (widen i used more)
                st2)
            h

  pub get_free_object_index-Stage :
      (contents : Bytes) (s : Storage)
      → Stage before contents s
      → Ends (get_free_object_index d s) (Found contents) (Fails d before)
  unfolding get_free_object_index
  get_free_object_index-Stage contents s st =
      free_object_loop-Stage contents 0 num_assets s refl (λ k l. absurd (omega arith)) st
