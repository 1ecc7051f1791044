-- ===== src/AuditLog/RecentLaws.antt =====
-- What `log_core_retrieve` reads of the list of items when not all of them fit.
use tfm_demo.Prelude.{
  ℕ, ◌≤◌, ◌<◌, ◌≡◌, ◌∙◌, ap, refl, subst, arith, Option, none, some, List, [], ◌∷◌, length, sym,
  ◌==◌, Bool-cases, inl, inr,
}
use tfm_demo.AuditLog.Buffer.{Bytes}
use tfm_demo.AuditLog.Log.{LogErr, Log, get_next_log_index}
use tfm_demo.AuditLog.Items.{Item, total, Holds, get_next-last_at}
use tfm_demo.AuditLog.Replace.{IsLog}
use tfm_demo.AuditLog.Delete.{drop_items}
use tfm_demo.AuditLog.Recent.{size_from, Recent, IsSpan, recent_loop-Recent}
use tfm_demo.AuditLog.Retrieve.{
  Span, smaller, nothing_read, Retrieved, log_read_recent, recent_loop, copy_span, finish_recent,
  log_core_retrieve,
}
use tfm_demo.AuditLog.Add.{length-total}
use tfm_demo.AuditLog.RetrieveLaws.{Lays, Lays-copy}

-- The newest items that fit `size` bytes were read: all but the first `dropped`, the fewest such that
-- the others fit, where `stored` is the size kept.
pub record IsReadRecent (size stored : ℕ) (items : List Item) (r : Retrieved) : Type 0 where
  pub success : r.err ≡ LogErr.success
  pub dropped : ℕ
  pub few : dropped ≤ length items
  pub count : r.info.num_items ≡ length (drop_items dropped items)
  pub bytes : r.info.size ≡ size_from stored items dropped
  pub fits : r.info.size ≤ size
  pub least : (m : ℕ) → m < dropped → size < size_from stored items m
  pub laid : Lays r.buffer 0 (drop_items dropped items)

abbrev pub ReadsRecent : ℕ → ℕ → List Item → Option Retrieved → Type 0
ReadsRecent size stored items none = ⊥
ReadsRecent size stored items (some r) = IsReadRecent size stored items r

no_bytes : (b : Bytes) (i : ℕ) (items : List Item) → Holds b i items → total items ≡ 0 → items ≡ []
no_bytes b i [] h e = refl
no_bytes b i (it ∷ rest) h e = absurd (omega (arith, h.1.sized))

finish_recent-ReadsRecent :
    (b buffer : Bytes) (size stored : ℕ) (items : List Item) (o : Option Span)
    → Recent b size stored items o
    → ReadsRecent size stored items (finish_recent b buffer o)
unfolding finish_recent copy_span
finish_recent-ReadsRecent b buffer size stored items none r = elim r [ ]
finish_recent-ReadsRecent b buffer size stored items (some v) r =
    elim (Bool-cases (v.stored_size == 0)) [
      | inl none_left ↦
          let gone : drop_items r.dropped items ≡ [] =
            no_bytes b v.start_idx _ r.held (ground (arith, none_left, r.room)) in
          rw none_left record {
            success = refl;
            dropped = r.dropped;
            few = r.few;
            count = sym (ap length gone);
            bytes = ground (arith, none_left, r.exact);
            fits = omega arith;
            least = r.least;
            laid = subst (Lays buffer 0) (sym gone) tt;
          }
      | inr some_left ↦ rw some_left record {
        success = refl;
        dropped = r.dropped;
        few = r.few;
        count = r.count;
        bytes = r.read ∙ r.exact;
        fits = omega (arith, r.read, r.fits);
        least = r.least;
        laid =
            Lays-copy b buffer v.start_idx v.retrieved_log_size 0 _ (omega (arith, r.room, r.read))
              (subst (λ i. Holds b i (drop_items r.dropped items)) (omega (arith, r.below)) r.held);
      }
    ]

-- The first round of the loop.
abbrev whole_span : ℕ → Log → Span
whole_span size l = record {
  start_idx = l.state.first_el_idx;
  num_items = l.state.num_items;
  stored_size = l.state.stored_size;
  retrieved_log_size = smaller size l.state.stored_size;
}

retrieve-loop :
    (fuel size : ℕ) (buffer : Bytes) (l : Log)
    → 0 < size
    → 0 < l.state.num_items
    → finish_recent l.buffer buffer (
        recent_loop l.buffer
          (get_next_log_index l.buffer l.state.last_el_idx)
          fuel
          (whole_span size l))
      ≡ log_core_retrieve fuel size log_read_recent buffer l
unfolding log_core_retrieve
retrieve-loop fuel size buffer l s n = ground arith

retrieve-empty :
    (fuel size : ℕ) (buffer : Bytes) (l : Log)
    → 0 < size
    → l.state.num_items ≡ 0
    → nothing_read LogErr.success buffer ≡ log_core_retrieve fuel size log_read_recent buffer l
unfolding log_core_retrieve
retrieve-empty fuel size buffer l s n = ground (arith, n)

whole_span-IsSpan :
    (size : ℕ) (l : Log) (it : Item) (rest : List Item)
    → IsLog l (it ∷ rest)
    → IsSpan l.buffer
        (get_next_log_index l.buffer l.state.last_el_idx)
        size
        (it ∷ rest)
        (whole_span size l)
whole_span-IsSpan size l it rest w = record {
  held = w.ring.held;
  below = w.ring.first;
  aligned = w.ring.first_aligned;
  behind =
      ap (get_next_log_index l.buffer) w.ring.last
      ∙ get_next-last_at l.buffer l.state.first_el_idx it rest w.ring.first w.ring.first_aligned
          w.ring.held;
  count = w.ring.count;
  small = omega (
    arith,
    length-total l.buffer l.state.first_el_idx (it ∷ rest) w.ring.held,
    w.ring.room,
    w.ring.bounded,
  );
  whole = omega (arith, w.ring.room, w.ring.bounded);
  room = w.ring.room;
  tight = inr (omega arith);
  read = refl;
}

-- From a log and for a buffer of at least one byte, with fuel for one round for each item, the request
-- for the recent items ends with success: what lies in the buffer, the oldest first, and what is
-- reported are the items without the fewest old ones such that the others fit, where the size kept
-- stands for that of all items.
pub log_core_retrieve-ReadsRecent :
    (fuel size : ℕ) (buffer : Bytes) (l : Log) (items : List Item)
    → IsLog l items
    → 0 < size
    → length items ≤ fuel
    → ReadsRecent size l.state.stored_size items
        (log_core_retrieve fuel size log_read_recent buffer l)
log_core_retrieve-ReadsRecent fuel size buffer l [] w pos le =
    subst (ReadsRecent size l.state.stored_size [])
      (retrieve-empty fuel size buffer l pos w.ring.count)
      record {
        success = refl;
        dropped = 0;
        few = omega arith;
        count = refl;
        bytes = sym w.empty.1;
        fits = omega arith;
        least = λ m h. absurd (omega (arith, h));
        laid = tt;
      }
log_core_retrieve-ReadsRecent fuel size buffer l (it ∷ rest) w pos le =
    subst (ReadsRecent size l.state.stored_size (it ∷ rest))
      (retrieve-loop fuel size buffer l pos (omega (arith, w.ring.count)))
      (finish_recent-ReadsRecent l.buffer buffer size l.state.stored_size (it ∷ rest) _ (
        recent_loop-Recent l.buffer _ size fuel (it ∷ rest) _ le
          (whole_span-IsSpan size l it rest w)))
