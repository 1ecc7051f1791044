-- ===== src/AuditLog/Add.antt =====
-- `log_core_add_line` against the list of items.
use tfm_demo.Prelude.{
  ℕ, suc, ◌+◌, ◌%◌, ◌≤◌, ◌<◌, ◌≡◌, refl, ◌∙◌, sym, subst, ap, arith, List, [], ◌∷◌, ◌++◌, length,
  true,
}
use tfm_demo.AuditLog.Buffer.{Bytes, log_size, ring_copy}
use tfm_demo.AuditLog.Item.{LogLine, compute_log_entry_size}
use tfm_demo.AuditLog.Log.{
  LogErr, LogVars, Log, replace_loop, log_replace_item, begin_pos, log_buffer_copy, add_at,
  log_core_add_line,
}
use tfm_demo.AuditLog.Copy.{ring_copy-inside}
use tfm_demo.AuditLog.Items.{
  Item, total, IsItem, Holds, last_at, get_next-last_at, Holds-ring_copy, Holds-append,
  total-append, last_at-append,
}
use tfm_demo.AuditLog.Replace.{
  IsRing, IsLog, IsLast, EmptyAt, Freed, drop_oldest, replace_loop-Freed,
}
use tfm_demo.AuditLog.Format.{item_of, item_of-IsItem, IsItemOf, item_of-IsItemOf}

-- The place of the new item is right behind the items that are kept.
begin_pos-IsRing :
    (b : Bytes) (v : LogVars) (items : List Item)
    → IsRing b v items
    → begin_pos b v ≡ (v.first_el_idx + total items) % log_size
unfolding begin_pos
begin_pos-IsRing b v [] r = ground (arith, r.count, r.first)
begin_pos-IsRing b v (it ∷ rest) r = ground (
  arith,
  r.count,
  r.last,
  get_next-last_at b v.first_el_idx it rest r.first r.first_aligned r.held,
)

length-append : (items : List Item) (it : Item) → length (items ++ (it ∷ [])) ≡ length items + 1
length-append [] it = refl
length-append (x ∷ rest) it = ap suc (length-append rest it) ∙ omega arith

IsLast-append :
    (last i : ℕ) (items : List Item) (it : Item)
    → last ≡ last_at i (items ++ (it ∷ []))
    → IsLast last i (items ++ (it ∷ []))
IsLast-append last i [] it e = e
IsLast-append last i (x ∷ rest) it e = e

EmptyAt-append : (v : LogVars) (items : List Item) (it : Item) → EmptyAt v (items ++ (it ∷ []))
EmptyAt-append v [] it = tt
EmptyAt-append v (x ∷ rest) it = tt

pub length-total :
    (b : Bytes) (i : ℕ) (items : List Item) → Holds b i items → length items ≤ total items
length-total b i [] h = omega arith
length-total b i (it ∷ rest) h =
    omega (arith, h.1.sized, length-total b ((i + it.len) % log_size) rest h.2)

log_buffer_copy-fits :
    (start n : ℕ) (src b : Bytes)
    → start < log_size
    → n ≤ log_size
    → log_buffer_copy start src n b ≡ ring_copy start src 0 n b
unfolding log_buffer_copy
log_buffer_copy-fits start n src b lt le = ground arith

Holds-log_buffer_copy :
    (b : Bytes) (i start : ℕ) (items : List Item) (it : Item)
    → start ≡ (i + total items) % log_size
    → total items + it.len ≤ log_size
    → IsItem it
    → Holds b i items
    → Holds (log_buffer_copy start it.bytes it.len b) i (items ++ (it ∷ []))
Holds-log_buffer_copy b i start items it e room w h =
    subst (λ x. Holds x i (items ++ (it ∷ [])))
      (sym (log_buffer_copy-fits start it.len it.bytes b (omega arith) w.fits))
      (Holds-append (ring_copy start it.bytes 0 it.len b) i items it
        (Holds-ring_copy b it.bytes i it.len start items e room h)
        (λ k lt.
          ap (λ x. ring_copy start it.bytes 0 it.len b ((x + k) % log_size)) (sym e)
          ∙ ring_copy-inside start 0 it.len k it.bytes b (omega (arith, w.fits)) (omega arith)
              (omega arith))
        w)

-- An item written behind the kept ones, where there is room.
pub add_at-IsLog :
    (l : Log) (line : LogLine) (start : ℕ) (v : LogVars) (items : List Item)
    → line.size % 4 ≡ 0
    → line.size ≤ 1000
    → Freed l.buffer (line.size + 24) v items
    → start ≡ (v.first_el_idx + total items) % log_size
    → IsLog (add_at l line start v).1 (items ++ (item_of l.global_timestamp line l.scratch ∷ []))
unfolding add_at log_buffer_copy
add_at-IsLog l line start v items al le f e = record {
  ring = record {
    held =
        subst
          (λ n.
            Holds (log_buffer_copy start it.bytes n l.buffer) v.first_el_idx (items ++ (it ∷ [])))
          wide
          (Holds-log_buffer_copy l.buffer v.first_el_idx start items it e
            (omega (arith, f.free, f.ring.room))
            (item_of-IsItem l.global_timestamp line l.scratch al le) f.ring.held);
    count = omega (
      arith,
      f.ring.count,
      length-append items it,
      length-total l.buffer v.first_el_idx items f.ring.held,
      f.ring.room,
      f.free,
    );
    first = f.ring.first;
    first_aligned = f.ring.first_aligned;
    last =
        IsLast-append start v.first_el_idx items it
          (e ∙ sym (last_at-append v.first_el_idx items it f.ring.first));
    room = omega (arith, total-append items it, f.ring.room, f.free);
    bounded = omega (arith, f.free);
  };
  empty = EmptyAt-append (add_at l line start v).1.state items it;
}
  where
    it : Item
    it = item_of l.global_timestamp line l.scratch

    wide : line.size + 24 ≡ compute_log_entry_size line.size
    wide = omega arith

add_at-success :
    (l : Log) (line : LogLine) (start : ℕ) (v : LogVars)
    → (add_at l line start v).0 ≡ LogErr.success
unfolding add_at
add_at-success l line start v = refl

log_replace_item-Freed :
    (b : Bytes) (need : ℕ) (v : LogVars) (items : List Item)
    → need ≤ log_size
    → IsRing b v items
    → Freed b need (log_replace_item b need v) (drop_oldest need v.stored_size items)
unfolding log_replace_item
log_replace_item-Freed b need v items le r =
    subst
      (λ n.
        Freed b need (replace_loop b need v.last_el_idx n v.first_el_idx v.stored_size)
          (drop_oldest need v.stored_size items))
      (sym r.count)
      (replace_loop-Freed b need v.last_el_idx v.first_el_idx v.stored_size items le (record {
        held = r.held;
        count = refl;
        first = r.first;
        first_aligned = r.first_aligned;
        last = r.last;
        room = r.room;
        bounded = r.bounded;
      }))

-- A line that may be added, on an empty log and on one with items.
add-empty :
    (l : Log) (line : LogLine)
    → line.size % 4 ≡ 0
    → line.size ≤ 1000
    → l.state.num_items ≡ 0
    → add_at l line 0 l.state ≡ log_core_add_line true line l
unfolding log_core_add_line
add-empty l line al le e = ground arith

abbrev replaced : Log → LogLine → LogVars
replaced l line = log_replace_item l.buffer (line.size + 24) l.state

add-replace :
    (l : Log) (line : LogLine)
    → line.size % 4 ≡ 0
    → line.size ≤ 1000
    → 0 < l.state.num_items
    → add_at l line (begin_pos l.buffer (replaced l line)) (replaced l line)
      ≡ log_core_add_line true line l
unfolding log_core_add_line
add-replace l line al le e = ground (arith, wide)
  where
    wide : compute_log_entry_size line.size ≡ line.size + 24
    wide = omega arith

abbrev Added : Log → LogLine → List Item → LogErr × Log → Type 0
Added l line items r =
    (r.0 ≡ LogErr.success)
    × IsLog r.1 (
        drop_oldest (line.size + 24) l.state.stored_size items
        ++ (item_of l.global_timestamp line l.scratch ∷ []))

added :
    (l : Log) (line : LogLine) (items : List Item)
    → line.size % 4 ≡ 0
    → line.size ≤ 1000
    → IsLog l items
    → Added l line items (log_core_add_line true line l)
added l line [] al le w = subst (Added l line []) (add-empty l line al le w.ring.count) (
  add_at-success l line 0 l.state,
  add_at-IsLog l line 0 l.state [] al le (record { ring = w.ring; free = omega (arith, w.empty.1) })
      (omega (arith, w.empty.0)),
)
added l line (it ∷ rest) al le w =
    subst (Added l line (it ∷ rest)) (add-replace l line al le (omega (arith, w.ring.count))) (
      add_at-success l line (begin_pos l.buffer v) v,
      add_at-IsLog l line (begin_pos l.buffer v) v
          (drop_oldest (line.size + 24) l.state.stored_size (it ∷ rest)) al le freed
          (begin_pos-IsRing l.buffer v _ freed.ring),
    )
  where
    v : LogVars
    v = replaced l line

    freed :
        Freed l.buffer
          (line.size + 24)
          v
          (drop_oldest (line.size + 24) l.state.stored_size (it ∷ rest))
    freed =
        log_replace_item-Freed l.buffer (line.size + 24) l.state (it ∷ rest) (omega arith) w.ring

-- A secure caller's line, of a size that is a multiple of 4 and at most 1000, also one below the 20 that
-- log_core.h asks for, is added to a log: its item in the layout of log_core.h stands behind the
-- items, of which only the oldest go, as many as the size kept asks for.
pub log_core_add_line-IsLog :
    (l : Log) (line : LogLine) (items : List Item)
    → line.size % 4 ≡ 0
    → line.size ≤ 1000
    → IsLog l items
    → ((log_core_add_line true line l).0 ≡ LogErr.success)
      × IsLog (log_core_add_line true line l).1 (
          drop_oldest (line.size + 24) l.state.stored_size items
          ++ (item_of l.global_timestamp line l.scratch ∷ []))
      × IsItemOf l.global_timestamp line (item_of l.global_timestamp line l.scratch)
log_core_add_line-IsLog l line items al le w = (
  (added l line items al le w).0,
  (added l line items al le w).1,
  item_of-IsItemOf l.global_timestamp line l.scratch,
)
