-- ===== src/AuditLog/Delete.antt =====
-- `log_core_delete_items` and `log_core_init` against the list of items.
use tfm_demo.Prelude.{
  ℕ, zero, suc, ◌-◌, ◌%◌, ◌≤◌, ◌<◌, ◌≡◌, refl, sym, subst, ap, arith, List, [], ◌∷◌, length, leb,
  min, Option, some, true, ◌⊎◌, inl, inr, Bool-cases,
}
use tfm_demo.AuditLog.Buffer.{Bytes, log_size}
use tfm_demo.AuditLog.Log.{
  LogErr, LogVars, Log, cleared, skip_items, log_core_delete_items, get_next_log_index,
  log_core_get_info,
}
use tfm_demo.AuditLog.Items.{Item, total, Holds, get_next-At}
use tfm_demo.AuditLog.Replace.{IsLog, IsLast, IsLast-tail, EmptyAt, IsRing-cleared}

-- The list without its first `n` items.
abbrev pub drop_items : ℕ → List Item → List Item
drop_items zero items = items
drop_items (suc n) [] = []
drop_items (suc n) (it ∷ rest) = drop_items n rest

-- What the variables say of the ring after the skip, without the count.
record Skipped (b : Bytes) (last first n : ℕ) (items : List Item) : Type 0 where
  pub held : Holds b (skip_items b n first) (drop_items n items)
  pub below : skip_items b n first < log_size
  pub aligned : skip_items b n first % 4 ≡ 0
  pub last_item : IsLast last (skip_items b n first) (drop_items n items)
  pub count : length (drop_items n items) ≡ length items - n
  pub less : total (drop_items n items) ≤ total items

Skipped-suc :
    (b : Bytes) (last first n : ℕ) (it : Item) (rest : List Item)
    → Skipped b last (get_next_log_index b first) n rest
    → Skipped b last first (suc n) (it ∷ rest)
unfolding skip_items
Skipped-suc b last first n it rest rec = record {
  held = rec.held;
  below = rec.below;
  aligned = rec.aligned;
  last_item = rec.last_item;
  count = omega (arith, rec.count);
  less = omega (arith, rec.less);
}

skip_items-Skipped :
    (b : Bytes) (last first n : ℕ) (items : List Item)
    → n < length items
    → first < log_size
    → first % 4 ≡ 0
    → Holds b first items
    → IsLast last first items
    → Skipped b last first n items
unfolding skip_items
skip_items-Skipped b last first zero items lt le al h e = record {
  held = h;
  below = le;
  aligned = al;
  last_item = e;
  count = omega arith;
  less = omega arith;
}
skip_items-Skipped b last first (suc n) [] lt le al h e = absurd (omega arith)
skip_items-Skipped b last first (suc n) (it ∷ rest) lt le al h e =
    Skipped-suc b last first n it rest (
      skip_items-Skipped b last (get_next_log_index b first) n rest (omega arith)
        (omega (arith, get_next-At b first it le al h.0 h.1))
        (omega (arith, get_next-At b first it le al h.0 h.1, h.1.aligned))
        (subst (λ x. Holds b x rest) (sym (get_next-At b first it le al h.0 h.1)) h.2)
        (subst (λ x. IsLast last x rest) (sym (get_next-At b first it le al h.0 h.1))
          (IsLast-tail last first it rest e)))

-- Whether all items go.
log_core_delete_items-all :
    (n : ℕ) (l : Log)
    → l.state.num_items ≤ n
    → (LogErr.success, some l.state.num_items, record l { state = cleared })
      ≡ log_core_delete_items true n l
unfolding log_core_delete_items
log_core_delete_items-all n l le = ground arith

abbrev some_deleted : ℕ → Log → Log
some_deleted n l = record l {
  state = record l.state {
    first_el_idx = skip_items l.buffer n l.state.first_el_idx;
    num_items = l.state.num_items - n;
  };
}

log_core_delete_items-some :
    (n : ℕ) (l : Log)
    → n < l.state.num_items
    → (LogErr.success, some n, some_deleted n l) ≡ log_core_delete_items true n l
unfolding log_core_delete_items
log_core_delete_items-some n l lt = ground arith

drop_items-all : (n : ℕ) (items : List Item) → length items ≤ n → drop_items n items ≡ []
drop_items-all zero [] le = refl
drop_items-all zero (it ∷ rest) le = absurd (omega arith)
drop_items-all (suc n) [] le = refl
drop_items-all (suc n) (it ∷ rest) le = drop_items-all n rest (omega arith)

drop_items-nonempty :
    (n : ℕ) (v : LogVars) (items : List Item) → n < length items → EmptyAt v (drop_items n items)
drop_items-nonempty n v [] lt = absurd (omega arith)
drop_items-nonempty zero v (it ∷ rest) lt = tt
drop_items-nonempty (suc n) v (it ∷ rest) lt = drop_items-nonempty n v rest (omega arith)

le-or-lt : (a n : ℕ) → (a ≤ n) ⊎ (n < a)
le-or-lt a n = elim (Bool-cases (leb a n)) [
  | inl e ↦ inl (ground (arith, e))
  | inr e ↦ inr (ground (arith, e))
]

abbrev Deleted : ℕ → List Item → LogErr × Option ℕ × Log → Type 0
Deleted n items r =
    IsLog r.2 (drop_items n items) × (r.0 ≡ LogErr.success) × (r.1 ≡ some (min n (length items)))

cleared-IsLog : (l : Log) → IsLog (record l { state = cleared }) []
cleared-IsLog l = record { ring = IsRing-cleared l.buffer; empty = (refl, refl) }

some_deleted-IsLog :
    (n : ℕ) (l : Log) (items : List Item)
    → n < length items
    → IsLog l items
    → Skipped l.buffer l.state.last_el_idx l.state.first_el_idx n items
    → IsLog (some_deleted n l) (drop_items n items)
some_deleted-IsLog n l items lt w k = record {
  ring = record {
    held = k.held;
    count = omega (arith, k.count, w.ring.count);
    first = k.below;
    first_aligned = k.aligned;
    last = k.last_item;
    room = omega (arith, k.less, w.ring.room);
    bounded = w.ring.bounded;
  };
  empty = drop_items-nonempty n (some_deleted n l).state items lt;
}

-- From a log the oldest items go, as many as are asked for or all of them, the count written says
-- how many, and what is left is a log.
pub log_core_delete_items-IsLog :
    (n : ℕ) (l : Log) (items : List Item)
    → IsLog l items
    → IsLog (log_core_delete_items true n l).2 (drop_items n items)
      × ((log_core_delete_items true n l).0 ≡ LogErr.success)
      × ((log_core_delete_items true n l).1 ≡ some (min n (length items)))
log_core_delete_items-IsLog n l items w = elim (le-or-lt (length items) n) [
  | inr lt ↦
      subst (Deleted n items) (log_core_delete_items-some n l (omega (arith, w.ring.count))) (
        some_deleted-IsLog n l items lt w (
            skip_items-Skipped l.buffer l.state.last_el_idx l.state.first_el_idx n items lt
              w.ring.first w.ring.first_aligned w.ring.held w.ring.last),
        refl,
        ap some (omega arith),
      )
  | inl le ↦ subst (Deleted n items) (log_core_delete_items-all n l (omega (arith, w.ring.count))) (
    subst (IsLog (record l { state = cleared })) (sym (drop_items-all n items (omega arith)))
        (cleared-IsLog l),
    refl,
    ap some (omega (arith, w.ring.count)),
  )
]

-- After a deletion that leaves an item, the size that `log_core_get_info` reports is the one from
-- before: the bytes of the deleted items still count.
pub log_core_delete_items-keeps_size :
    (n : ℕ) (l : Log)
    → n < l.state.num_items
    → (log_core_get_info (log_core_delete_items true n l).2).size ≡ (log_core_get_info l).size
unfolding log_core_get_info
log_core_delete_items-keeps_size n l lt =
    ap (λ r. r.2.state.stored_size) (sym (log_core_delete_items-some n l lt))
