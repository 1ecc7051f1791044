-- ===== src/Store/WriteLaws.antt =====
-- Writing into an object of block 0, up to the metadata header.
use tfm_demo.Prelude.{
  ℕ, ◌+◌, ◌-◌, ◌≤◌, ◌<◌, ◌≡◌, ◌⊎◌, ◌==◌, if◌then◌else◌, ltb, add32, max, refl, ap, ◌∙◌, arith, inl,
  inr,
}
use native.Mathlib.Decide.{dec_lt}
use tfm_demo.AuditLog.Buffer.{Bytes}
use tfm_demo.Sst.Utils.{SstErr}
use tfm_demo.Store.Layout.{block_size, num_assets, num_active_dblocks, all_metadata_size}
use tfm_demo.Store.Effects.{Storage, fail}
use tfm_demo.Store.Flash.{Driver, IsFlash}
use tfm_demo.Store.Meta.{AssetMeta}
use tfm_demo.Store.Tables.{get_object_idx}
use tfm_demo.Store.Write.{grown, stage_write}
use tfm_demo.Store.Ends.{Ends, Ends-bind, Ends-weaken, Ends-loosen, Ends-renamed, Ends-when}
use tfm_demo.Store.Staged.{IsStaged, Stage, Faulty, block_entry, object_entry, active_of}
use tfm_demo.Store.Quiet.{IsQuiet}
use tfm_demo.Store.EntryReads.{
  IsFirst, Stuck, read_object_meta-Entry, read_block_metadata-Entry, object_idx_loop-IsFirst,
}
use tfm_demo.Store.Ready.{IsReady}
use tfm_demo.Store.ReadyAgain.{Quiet-Stage, Quiet-IsStaged}
use tfm_demo.Store.Composed.{CanHold, IsComposed, compose_object-IsComposed}
use tfm_demo.Store.Created.{located}
use tfm_demo.Store.StagedWrite.{IsRewritten, stage_object-Stage}

-- The entry of an object that holds bytes up to `end`: longer if it was shorter, and not else.
abbrev pub written_entry : AssetMeta → ℕ → AssetMeta
written_entry meta end = record meta { cur_size = max meta.cur_size end }

-- The tables of `old` with object `i` grown to hold `size` bytes at `offset`, in block `metablock`,
-- and the data behind the tables of `old` with these bytes.
pub record HasWritten (old new content : Bytes) (metablock i offset size : ℕ) : Type 0 where
  pub objects :
      (k : ℕ)
      → k < num_assets
      → object_entry new k ≡ (
          if k == i then written_entry (object_entry old i) (offset + size) else object_entry old k)
  pub blocks :
      (k : ℕ) → k < num_active_dblocks → block_entry new k ≡ located metablock k (block_entry old k)
  pub written :
      (k : ℕ) → k < size → new ((object_entry old i).data_index + (offset + k)) ≡ content k
  pub kept :
      (o : ℕ)
      → all_metadata_size ≤ o
      → o + (block_entry old 0).free_size < block_size
      → (o < (object_entry old i).data_index + offset)
        ⊎ ((object_entry old i).data_index + (offset + size) ≤ o)
      → new o ≡ old o

-- Why nothing is written: the flash or the tables are at fault, or the object ends before `offset`.
abbrev pub WhyNot : Driver → Storage → ℕ → ℕ → Type 0
WhyNot d before i offset = Faulty d before ⊎ ((object_entry (active_of before) i).cur_size < offset)

pub first_unique : (s : Storage) (uuid i j : ℕ) → IsFirst s uuid i → IsFirst s uuid j → i ≡ j
first_unique s uuid i j f g = elim (dec_lt i j) [
  | yes a ↦ absurd (g.2 i a f.1)
  | no a ↦ elim (dec_lt j i) [ yes b ↦ absurd (f.2 j b g.1) | no b ↦ omega arith ]
]

module _ (d : Driver) (laws : IsFlash d) (before : Storage) (ready : IsReady before)
    (uuid i offset size : ℕ) (content : Bytes) (first : IsFirst before uuid i)
    (hold : CanHold before (object_entry (active_of before) i) (offset + size)) where
  abbrev pub m : AssetMeta
  m = object_entry (active_of before) i

  abbrev new_meta : AssetMeta
  new_meta = grown m (add32 offset size)

  sum : add32 offset size ≡ offset + size
  sum = omega (arith, hold.room, hold.hi)

  longest : new_meta.cur_size ≡ max m.cur_size (offset + size)
  longest = ground (arith, sum)

  longer : (k : ℕ) → k < size → offset + k < new_meta.cur_size
  longer k l = ground (arith, sum)

  new_size : (new_meta.cur_size ≡ m.cur_size) ⊎ (new_meta.cur_size ≡ offset + size)
  new_size = ground (arith, sum)

  in_room : new_meta.cur_size ≤ m.max_size
  in_room = ground (arith, sum, hold.room, hold.fits)

  made :
      (new : Bytes) (s : Storage)
      → offset ≤ m.cur_size
      → IsComposed d laws before ready i offset size content hold s
      → IsRewritten (active_of before) new s.buf_plain_text before.scratch_metablock i new_meta
      → HasWritten (active_of before) new content before.scratch_metablock i offset size
  made new s le c w = record {
    objects = λ k l.
        w.objects k l
        ∙ ap
            (λ (n : ℕ).
              if k == i then record m { cur_size = n } else object_entry (active_of before) k)
            longest;
    blocks = w.blocks;
    written = λ k l. ap new (omega arith) ∙ w.written (offset + k) (longer k l) ∙ c.1 k l;
    kept = λ o l h out. elim (dec_lt o m.data_index) [
      | yes a ↦ w.kept o l h (inl a)
      | no a ↦ elim (dec_lt o (m.data_index + new_meta.cur_size)) [
        | yes b ↦
            ap new (omega arith)
            ∙ w.written (o - m.data_index) (omega arith)
            ∙ c.2 (o - m.data_index) (shorter o (omega arith) b out) (beside o (omega arith) out)
            ∙ ap (active_of before) (omega arith)
        | no b ↦ w.kept o l h (inr (omega arith))
      ]
    ];
  }
    where
      beside :
          (o : ℕ)
          → m.data_index ≤ o
          → (o < m.data_index + offset) ⊎ (m.data_index + (offset + size) ≤ o)
          → (o - m.data_index < offset) ⊎ (offset + size ≤ o - m.data_index)
      beside o l (inl a) = inl (omega arith)
      beside o l (inr a) = inr (omega arith)

      shorter :
          (o : ℕ)
          → m.data_index ≤ o
          → o < m.data_index + new_meta.cur_size
          → (o < m.data_index + offset) ⊎ (m.data_index + (offset + size) ≤ o)
          → o - m.data_index < m.cur_size
      shorter o l b (inl a) = omega (arith, le)
      shorter o l b (inr a) = omega (arith, new_size)

  pub stage_write-HasWritten :
      Ends
        (stage_write d uuid content offset size before)
        (λ _ s'.
          (new : Bytes) × (Stage before new s')
          × (HasWritten (active_of before) new content before.scratch_metablock i offset size))
        (λ s'. IsStaged before s' × WhyNot d before i offset)
  unfolding stage_write get_object_idx
  stage_write-HasWritten =
      Ends-bind _ _
        (Ends-renamed _ _ (
          Ends-loosen _
            (object_idx_loop-IsFirst d laws before ready.apart uuid 0 num_assets before refl
              (λ j l. absurd (omega arith))
              (record { flash = refl; active = refl; scratch = refl; header = refl }))
            λ s f. (
              Quiet-IsStaged before ready s f.0,
              elim f.1 [ inl a ↦ inl a | inr a ↦ absurd (a i first.0 first.1) ],
            )))
        λ j s1 f. simp (first_unique before uuid j i f.1 first) (
          Ends-bind _ _
            (Ends-renamed _ _ (
              Ends-loosen _ (read_object_meta-Entry d laws before ready.apart i s1 first.0 f.0)
                stuck))
            λ m1 s2 r. simp (r.1) (
              Ends-bind _ _
                (Ends-renamed _ _ (
                  Ends-loosen _
                    (read_block_metadata-Entry d laws before ready.apart m.lblock s2
                      (omega (arith, hold.zeroth)) r.0)
                    stuck))
                λ b s3 rb. simp (rb.1 ∙ ap (block_entry (active_of before)) hold.zeroth) (
                  Ends-bind _ _
                    (Ends-when {P = λ s. IsQuiet before s × (offset ≤ m.cur_size)}
                      (ltb m.cur_size offset) (fail SstErr.param_error) s3
                      (λ h. record {
                        holds = (Quiet-IsStaged before ready s3 rb.0, inr (ground (arith, h)));
                      })
                      (λ h. (rb.0, ground (arith, h))))
                    λ _ s4 q.
                      Ends-bind _ _
                        (Ends-loosen _
                          (compose_object-IsComposed d laws before ready i offset size content hold
                            s4 q.0)
                          stuck)
                        λ _ s5 c. Ends-renamed _ _ (
                          Ends-weaken _
                            (Ends-loosen _
                              (stage_object-Stage d laws before ready.apart i new_meta
                                s5.buf_plain_text first.0 s5 hold.start hold.own hold.lo
                                (omega (arith, in_room, hold.hi)) hold.zeroth (omega arith)
                                (omega arith) refl (Quiet-Stage before ready s5 c.0))
                              λ s f. (f.0, inl f.1))
                            λ _ s6 w. (w.0, w.1, made w.0 s5 q.1 c w.2)))))
    where
      stuck :
          (s : Storage)
          → Stuck d laws before ready.apart s
          → IsStaged before s × WhyNot d before i offset
      stuck s f = (Quiet-IsStaged before ready s f.0, inl f.1)
