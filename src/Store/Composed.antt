-- ===== src/Store/Composed.antt =====
-- The new contents of an object of block 0, in the plain-text buffer.
use tfm_demo.Prelude.{ℕ, ◌+◌, ◌≤◌, ◌<◌, ◌≡◌, ◌⊎◌, ltb, add32, ap, ◌∙◌, arith, inl, inr}
use tfm_demo.AuditLog.Buffer.{Bytes, copy_from}
use tfm_demo.AuditLog.Copy.{copy_from-inside, copy_from-outside}
use tfm_demo.Store.Layout.{block_size, all_metadata_size}
use tfm_demo.Store.Effects.{Storage}
use tfm_demo.Store.Flash.{Driver, IsFlash, phys_address}
use tfm_demo.Store.Meta.{AssetMeta}
use tfm_demo.Store.Write.{cleaned, on_plain_text, compose_object}
use tfm_demo.Store.Ends.{Ends, Ends-bind, Ends-done, Ends-when}
use tfm_demo.Store.Staged.{block_entry, object_entry, active_of}
use tfm_demo.Store.Quiet.{IsQuiet}
use tfm_demo.Store.EntryReads.{Stuck}
use tfm_demo.Store.ReadLaws.{block_object_read_raw-Bytes}
use tfm_demo.Store.Ready.{IsReady}

-- Block 0 is in the active metadata block, and the object in it can hold `end` bytes, which lie behind
-- the tables and in front of the free bytes.
pub record CanHold (s : Storage) (m : AssetMeta) (end : ℕ) : Type 0 where
  pub own : (block_entry (active_of s) 0).phys_id ≡ s.active_metablock
  pub start : (block_entry (active_of s) 0).data_start ≡ all_metadata_size
  pub zeroth : m.lblock ≡ 0
  pub lo : all_metadata_size ≤ m.data_index
  pub hi : m.data_index + m.max_size + (block_entry (active_of s) 0).free_size ≤ block_size
  pub fits : m.cur_size ≤ m.max_size
  pub room : end ≤ m.max_size

with_buffer :
    {before : Storage} (f : Bytes → Bytes) (s : Storage)
    → IsQuiet before s
    → IsQuiet before (on_plain_text f s)
with_buffer f s q = record {
  flash = q.flash;
  active = q.active;
  scratch = q.scratch;
  header = q.header;
}

buffered : (b : Bytes) (n k : ℕ) (dest : Bytes) → k < n → copy_from 0 b 0 n dest k ≡ b k
buffered b n k dest l =
    ap (copy_from 0 b 0 n dest) (omega arith)
    ∙ copy_from-inside 0 0 n k b dest (omega arith) (omega arith)

module _ (d : Driver) (laws : IsFlash d) (before : Storage) (ready : IsReady before)
    (i offset size : ℕ) (content : Bytes)
    (hold : CanHold before (object_entry (active_of before) i) (offset + size)) where
  abbrev pub m : AssetMeta
  m = object_entry (active_of before) i

  -- The buffer has the bytes of the object, with the new ones.
  abbrev pub IsComposed : Storage → Type 0
  IsComposed s =
      IsQuiet before s
      × ((k : ℕ) → k < size → s.buf_plain_text (offset + k) ≡ content k)
      × ((k : ℕ)
          → k < m.cur_size
          → (k < offset) ⊎ (offset + size ≤ k)
          → s.buf_plain_text k ≡ active_of before (m.data_index + k))

  pub compose_object-IsComposed :
      (s : Storage)
      → IsQuiet before s
      → Ends
          (compose_object d (object_entry (active_of before) i) content offset size s)
          (λ _. IsComposed)
          (Stuck d laws before ready.apart)
  unfolding compose_object
  compose_object-IsComposed s q =
      Ends-bind _ _
        (Ends-when
          {P = λ s'.
            IsQuiet before s'
            × ((k : ℕ)
                → k < m.cur_size
                → s'.buf_plain_text k ≡ active_of before (m.data_index + k))}
          (ltb 0 m.cur_size) _ (on_plain_text cleaned s)
          (λ h.
            Ends-bind _ _
              (block_object_read_raw-Bytes d laws before ready.apart m 0 m.cur_size
                (on_plain_text cleaned s) (omega (arith, hold.zeroth)) (with_buffer cleaned s q))
              λ b s1 r. Ends-done _ _ (
                with_buffer (copy_from 0 b 0 m.cur_size) s1 r.0,
                λ k l. buffered b m.cur_size k s1.buf_plain_text l ∙ r.2 k l ∙ stored k l,
              ))
          (λ h. (with_buffer cleaned s q, λ k l. absurd (ground (arith, h, l)))))
        λ _ s2 p. Ends-done _ _ (
          with_buffer (copy_from offset content 0 size) s2 p.0,
          λ k l.
              copy_from-inside offset 0 size k content s2.buf_plain_text (omega arith)
                (omega arith),
          λ k l out.
              copy_from-outside offset 0 size k content s2.buf_plain_text
                (elim out [ inl x ↦ inl (omega arith) | inr y ↦ inr (omega arith) ])
              ∙ p.1 k l,
        )
    where
      stored :
          (k : ℕ)
          → k < m.cur_size
          → before.flash (
              phys_address (block_entry (active_of before) m.lblock).phys_id (add32 m.data_index 0)
              + k)
            ≡ active_of before (m.data_index + k)
      stored k l = ap before.flash (
          omega (
            arith,
            ap (λ (n : ℕ). (block_entry (active_of before) n).phys_id) hold.zeroth ∙ hold.own,
            hold.hi,
          ))
