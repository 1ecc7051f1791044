-- ===== src/Store/ReadLaws.antt =====
-- Reading an object: what comes back, and why an error does.
use tfm_demo.Prelude.{
  ℕ, ◌+◌, ◌≤◌, ◌<◌, ◌≡◌, ◌≢◌, ◌⊎◌, ◌==◌, not, true, false, refl, sym, ap, ◌∙◌, arith, inl, inr,
  Bool-cases, word, add32, subst,
}
use tfm_demo.AuditLog.Buffer.{Bytes}
use tfm_demo.Sst.Utils.{check_contained_in}
use tfm_demo.Store.Layout.{num_assets, block_invalid_id}
use tfm_demo.Store.Effects.{Storage}
use tfm_demo.Store.Flash.{Driver, IsFlash, phys_address, read, flash_read}
use tfm_demo.Store.Meta.{AssetMeta}
use tfm_demo.Store.Validate.{succeeded}
use tfm_demo.Store.Tables.{get_object_idx}
use tfm_demo.Store.Scratch.{block_object_read_raw}
use tfm_demo.Store.Read.{object_read}
use tfm_demo.Store.Ends.{
  Ends, Ends-bind, Ends-answer, Ends-weaken, Ends-loosen, Ends-renamed, Ends-when,
}
use tfm_demo.Store.Staged.{HasMetaBlocks, Faulty, active_of, object_entry, block_entry}
use tfm_demo.Store.Quiet.{IsQuiet}
use tfm_demo.Store.EntryReads.{
  IsFirst, IsAbsent, Stuck, read_object_meta-Entry, object_idx_loop-IsFirst, dblock_lo_to_phy-Entry,
  IsQuiet-request,
}

outside :
    (n offset size : ℕ)
    → n < word
    → offset < word
    → size < word
    → not (succeeded (check_contained_in 0 n offset size)) ≡ true
    → n < offset + size
unfolding check_contained_in
outside n offset size l o s h = ground arith

contained :
    (n offset size : ℕ)
    → n < word
    → offset < word
    → size < word
    → not (succeeded (check_contained_in 0 n offset size)) ≡ false
    → offset + size ≤ n
unfolding check_contained_in
contained n offset size l o s h = ground arith

module _ (d : Driver) (laws : IsFlash d) (before : Storage) (apart : HasMetaBlocks before) where
  -- Where the entry says that the object lies, the bytes from `offset`.
  pub record IsContents (uuid offset size : ℕ) (b : Bytes) : Type 0 where
    pub entry : ℕ
    pub first : IsFirst before uuid entry
    pub inside : offset + size ≤ (object_entry (active_of before) entry).cur_size
    pub block :
        (block_entry (active_of before) (object_entry (active_of before) entry).lblock).phys_id < 5
    pub bytes :
        (k : ℕ)
        → k < size
        → b k
          ≡ before.flash (
              phys_address
                (block_entry
                  (active_of before)
                  (object_entry (active_of before) entry).lblock).phys_id
                (add32 (object_entry (active_of before) entry).data_index offset)
              + k)

  -- The entry of the object says that it ends before the range does.
  abbrev pub IsOutside : ℕ → ℕ → ℕ → Type 0
  IsOutside uuid offset size =
      (i : ℕ) × IsFirst before uuid i
      × ((object_entry (active_of before) i).cur_size < offset + size)

  abbrev pub IsNotRead : ℕ → ℕ → ℕ → Storage → Type 0
  IsNotRead uuid offset size s =
      IsQuiet before s × (Faulty d before ⊎ (IsAbsent before uuid ⊎ IsOutside uuid offset size))

  read_bytes-IsQuiet :
      (block offset size : ℕ) (s : Storage)
      → IsQuiet before s
      → Ends
          (read d block offset size s)
          (λ b s'.
            IsQuiet before s'
            × ((k : ℕ) → k < size → b k ≡ before.flash (phys_address block offset + k)))
          (Stuck d laws before apart)
  unfolding read flash_read
  read_bytes-IsQuiet block offset size s q =
      Ends-answer _ _ _
        (λ e. (
          IsQuiet-request d laws before apart s q,
          λ k l.
              laws.reads _ _ _ _ k e l
              ∙ ap (λ (f : Bytes). f (phys_address block offset + k)) q.flash,
        ))
        (λ ne. (IsQuiet-request d laws before apart s q, λ w v. ne (w.read_works _ _ _ _)))

  pub block_object_read_raw-Bytes :
      (m : AssetMeta) (offset size : ℕ) (s : Storage)
      → m.lblock < 3
      → IsQuiet before s
      → Ends
          (block_object_read_raw d m offset size s)
          (λ b s'.
            IsQuiet before s'
            × ((block_entry (active_of before) m.lblock).phys_id < 5)
            × ((k : ℕ)
                → k < size
                → b k
                  ≡ before.flash (
                      phys_address
                        (block_entry (active_of before) m.lblock).phys_id
                        (add32 m.data_index offset)
                      + k)))
          (Stuck d laws before apart)
  unfolding block_object_read_raw
  block_object_read_raw-Bytes m offset size s lt q =
      Ends-bind _ _ (dblock_lo_to_phy-Entry d laws before apart m.lblock s lt q) λ p s1 h.
        elim (Bool-cases (p == block_invalid_id)) [
          | inl invalid ↦ rw invalid (record {
            holds = (h.0, elim h.1 [ inl a ↦ a.1 | inr a ↦ absurd (is_invalid p invalid a.1) ]);
          })
          | inr valid ↦ rw valid (elim h.1 [
            | inl a ↦ absurd (is_valid p valid a.0)
            | inr a ↦ Ends-weaken _ (read_bytes-IsQuiet p _ size s1 h.0) λ b s2 r. (
              r.0,
              omega (arith, a.0, a.1),
              λ k l.
                  r.1 k l
                  ∙ ap (λ (n : ℕ). before.flash (phys_address n (add32 m.data_index offset) + k))
                      a.0,
            )
          ])
        ]
    where
      is_invalid : (p : ℕ) → (p == block_invalid_id) ≡ true → ¬ (p < 5)
      is_invalid p e l = ground arith

      is_valid : (p : ℕ) → (p == block_invalid_id) ≡ false → p ≢ block_invalid_id
      is_valid p e n = ground arith

  -- Where the active and the scratch metadata block are the two metadata blocks, reading an object with
  -- a 32-bit offset and size changes neither the flash nor the context. What it returns lies inside the
  -- current size of the first object with the id, and is what the flash holds where the tables say; an
  -- error or a loss of power means a faulty flash or invalid tables, no object with the id, or a range
  -- that ends behind it.
  pub object_read-IsContents :
      (uuid offset size : ℕ)
      → offset < word
      → size < word
      → Ends
          (object_read d uuid offset size before)
          (λ b s. IsQuiet before s × IsContents uuid offset size b)
          (IsNotRead uuid offset size)
  unfolding object_read get_object_idx
  object_read-IsContents uuid offset size offset32 size32 =
      Ends-bind _ _
        (Ends-renamed _ _ (
          Ends-loosen _
            (object_idx_loop-IsFirst d laws before apart uuid 0 num_assets before refl
              (λ j l. absurd (omega arith))
              (record { flash = refl; active = refl; scratch = refl; header = refl }))
            λ s f. (f.0, elim f.1 [ inl a ↦ inl a | inr a ↦ inr (inl a) ])))
        λ i s1 f.
          Ends-bind _ _
            (Ends-renamed _ _
              (Ends-loosen _ (read_object_meta-Entry d laws before apart i s1 f.1.0 f.0) stuck))
            λ m s2 r.
              Ends-bind _ _
                (Ends-when {P = λ s. IsQuiet before s} (not (uuid == m.unique_id)) _ s2
                  (λ h. absurd (
                    same uuid m.unique_id h
                      (sym (ap (λ (x : AssetMeta). x.unique_id) r.1 ∙ f.1.1))))
                  (λ h. r.0))
                λ _ s3 q3.
                  Ends-bind _ _
                    (Ends-when {P = λ s. IsQuiet before s × (offset + size ≤ m.cur_size)} _ _ s3
                      (λ h. record {
                        holds = (
                          q3,
                          inr (
                              inr (
                                i,
                                f.1,
                                omega (
                                  arith,
                                  ap (λ (x : AssetMeta). x.cur_size) r.1,
                                  outside m.cur_size offset size (bound m i r.1) offset32 size32 h,
                                ),
                              )),
                        );
                      })
                      (λ h.
                        (q3, contained m.cur_size offset size (bound m i r.1) offset32 size32 h)))
                    λ _ s4 q4. Ends-renamed _ _ (
                      Ends-weaken _
                        (Ends-loosen _ (block_object_read_raw-Bytes m offset size s4 r.2 q4.0)
                          stuck)
                        λ b s5 c. (c.0, made i m f.1 r.1 q4.1 b c.1 c.2))
    where
      stuck : (s : Storage) → Stuck d laws before apart s → IsNotRead uuid offset size s
      stuck s f = (f.0, inl f.1)

      same : (a b : ℕ) → not (a == b) ≡ true → a ≢ b
      same a b e h = ground arith

      bound : (m : AssetMeta) (i : ℕ) → m ≡ object_entry (active_of before) i → m.cur_size < word
      bound m i e = omega (arith, ap (λ (x : AssetMeta). x.cur_size) e)

      made :
          (i : ℕ) (m : AssetMeta)
          → IsFirst before uuid i
          → m ≡ object_entry (active_of before) i
          → offset + size ≤ m.cur_size
          → (b : Bytes) → (block_entry (active_of before) m.lblock).phys_id < 5
          → ((k : ℕ)
              → k < size
              → b k
                ≡ before.flash (
                    phys_address
                      (block_entry (active_of before) m.lblock).phys_id
                      (add32 m.data_index offset)
                    + k))
          → IsContents uuid offset size b
      made i m f e le b bl h = record {
        entry = i;
        first = f;
        inside = omega (arith, le, ap (λ (x : AssetMeta). x.cur_size) e);
        block =
            subst (λ (x : AssetMeta). (block_entry (active_of before) x.lblock).phys_id < 5) e bl;
        bytes = λ k l.
            h k l
            ∙ ap
                (λ (x : AssetMeta). before.flash (
                  phys_address (block_entry (active_of before) x.lblock).phys_id
                    (add32 x.data_index offset)
                  + k))
                e;
      }
