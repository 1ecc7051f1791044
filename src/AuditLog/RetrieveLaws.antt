-- ===== src/AuditLog/RetrieveLaws.antt =====
-- What `log_core_retrieve` reads of the list of items.
use tfm_demo.Prelude.{
  ℕ, zero, suc, ◌+◌, ◌%◌, ◌≤◌, ◌<◌, ◌≡◌, ◌∙◌, ap, refl, subst, arith, Option, none, some, List, [],
  ◌∷◌, length,
}
use tfm_demo.AuditLog.Buffer.{Bytes, log_size, copy_from}
use tfm_demo.AuditLog.Log.{LogErr, Log}
use tfm_demo.AuditLog.Items.{Item, total, Holds}
use tfm_demo.AuditLog.Replace.{IsLog}
use tfm_demo.AuditLog.Copy.{copy_from-inside}
use tfm_demo.AuditLog.Retrieve.{
  Retrieved, log_read_recent, recent_loop, copy_span, finish_recent, log_core_retrieve,
}

-- The buffer has the items one behind the other from offset `o` on.
abbrev pub Lays : Bytes → ℕ → List Item → Type 0
Lays buffer o [] = Unit
Lays buffer o (it ∷ rest) =
    ((k : ℕ) → k < it.len → buffer (o + k) ≡ it.bytes k) × Lays buffer (o + it.len) rest

-- All items were read.
abbrev pub ReadsAll : List Item → Option Retrieved → Type 0
ReadsAll items none = ⊥
ReadsAll items (some r) =
    (r.err ≡ LogErr.success) × (r.info.num_items ≡ length items) × Lays r.buffer 0 items

pub Lays-copy :
    (b buffer : Bytes) (first n o : ℕ) (items : List Item)
    → o + total items ≤ n
    → Holds b ((first + o) % log_size) items
    → Lays (copy_from 0 (λ idx. b ((first + idx) % log_size)) 0 n buffer) o items
Lays-copy b buffer first n o [] le h = tt
Lays-copy b buffer first n o (it ∷ rest) le h = (
  (λ k lt.
      ap (copy_from 0 (λ idx. b ((first + idx) % log_size)) 0 n buffer) (omega arith)
      ∙ copy_from-inside 0 0 n (o + k) (λ idx. b ((first + idx) % log_size)) buffer (omega arith)
          (omega arith)
      ∙ ap b (omega arith)
      ∙ h.0 k lt),
  Lays-copy b buffer first n (o + it.len) rest (omega arith)
      (subst (λ i. Holds b i rest) (omega arith) h.2),
)

-- With room for the size kept, the request for the recent items is the copy of all of it.
retrieve-copy :
    (fuel size : ℕ) (buffer : Bytes) (l : Log)
    → 0 < l.state.num_items
    → 0 < l.state.stored_size
    → l.state.stored_size ≤ size
    → copy_span l.buffer buffer l.state.first_el_idx l.state.stored_size l.state.num_items
      ≡ log_core_retrieve fuel size log_read_recent buffer l
unfolding log_core_retrieve finish_recent recent_loop
retrieve-copy zero size buffer l n s le = ground arith
retrieve-copy (suc fuel) size buffer l n s le = ground arith

-- From a log with items and a buffer with room for the size kept, the request for the recent items
-- succeeds, on any fuel, reports the number of items, and lays all of them into the buffer, the
-- oldest first.
pub log_core_retrieve-ReadsAll :
    (fuel size : ℕ) (buffer : Bytes) (l : Log) (it : Item) (rest : List Item)
    → IsLog l (it ∷ rest)
    → l.state.stored_size ≤ size
    → ReadsAll (it ∷ rest) (log_core_retrieve fuel size log_read_recent buffer l)
unfolding copy_span
log_core_retrieve-ReadsAll fuel size buffer l it rest w le =
    subst (ReadsAll (it ∷ rest))
      (retrieve-copy fuel size buffer l (omega (arith, w.ring.count))
        (omega (arith, w.ring.room, w.ring.held.1.sized)) le)
      (
        refl,
        w.ring.count,
        Lays-copy l.buffer buffer l.state.first_el_idx l.state.stored_size 0 (it ∷ rest)
            (omega (arith, w.ring.room))
            (subst (λ i. Holds l.buffer i (it ∷ rest)) (omega (arith, w.ring.first)) w.ring.held),
      )
