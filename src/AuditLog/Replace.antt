-- ===== src/AuditLog/Replace.antt =====
-- The invariant of the log, and `log_replace_item` against the list of items it keeps.
use tfm_demo.Prelude.{
  ℕ, ◌+◌, ◌-◌, ◌%◌, ◌≤◌, ◌<◌, ◌≡◌, refl, sym, subst, arith, List, [], ◌∷◌, length, leb, ltb,
  if◌then◌else◌, sub32, Bool, true, false, not,
}
use mathlib.Core.Bool.{false≢true}
use tfm_demo.AuditLog.Buffer.{Bytes, log_size}
use tfm_demo.AuditLog.Log.{LogVars, Log, cleared, replace_loop, get_next_log_index, entry_size}
use tfm_demo.AuditLog.Items.{Item, total, Holds, last_at, entry_size-At, get_next-At}

-- The last index is the last item's; an empty log has none.
abbrev pub IsLast : ℕ → ℕ → List Item → Type 0
IsLast last i [] = Unit
IsLast last i (it ∷ rest) = last ≡ last_at i (it ∷ rest)

-- The ring holds the items, and the variables point at them. The size kept is not below theirs.
pub record IsRing (b : Bytes) (v : LogVars) (items : List Item) : Type 0 where
  pub held : Holds b v.first_el_idx items
  pub count : v.num_items ≡ length items
  pub first : v.first_el_idx < log_size
  pub first_aligned : v.first_el_idx % 4 ≡ 0
  pub last : IsLast v.last_el_idx v.first_el_idx items
  pub room : total items ≤ v.stored_size
  pub bounded : v.stored_size ≤ log_size

-- An empty log starts at index 0 and has no bytes.
abbrev pub EmptyAt : LogVars → List Item → Type 0
EmptyAt v [] = (v.first_el_idx ≡ 0) × (v.stored_size ≡ 0)
EmptyAt v (it ∷ rest) = Unit

pub record IsLog (l : Log) (items : List Item) : Type 0 where
  pub ring : IsRing l.buffer l.state items
  pub empty : EmptyAt l.state items

-- The oldest items go, until `need` bytes are free of the `stored` ones.
abbrev pub drop_oldest : ℕ → ℕ → List Item → List Item
drop_oldest need stored [] = []
drop_oldest need stored (it ∷ rest) =
    if leb (stored + need) log_size then it ∷ rest else drop_oldest need (stored - it.len) rest

pub IsLast-tail :
    (last i : ℕ) (it : Item) (rest : List Item)
    → IsLast last i (it ∷ rest)
    → IsLast last ((i + it.len) % log_size) rest
IsLast-tail last i it [] h = tt
IsLast-tail last i it (x ∷ rest) h = h

pub IsRing-cleared : (b : Bytes) → IsRing b cleared []
IsRing-cleared b = record {
  held = tt;
  count = refl;
  first = omega arith;
  first_aligned = refl;
  last = tt;
  room = omega arith;
  bounded = omega arith;
}

-- The state without the oldest item is again one of the log.
pub IsRing-tail :
    (b : Bytes) (v : LogVars) (it : Item) (rest : List Item)
    → IsRing b v (it ∷ rest)
    → IsRing b
        (record {
          first_el_idx = get_next_log_index b v.first_el_idx;
          last_el_idx = v.last_el_idx;
          num_items = length rest;
          stored_size = sub32 v.stored_size (entry_size b v.first_el_idx);
        })
        rest
IsRing-tail b v it rest r = record {
  held = subst (λ x. Holds b x rest) (sym next) r.held.2;
  count = refl;
  first = omega (arith, next);
  first_aligned = omega (arith, next, r.held.1.aligned, r.first_aligned);
  last =
      subst (λ x. IsLast v.last_el_idx x rest) (sym next)
        (IsLast-tail v.last_el_idx v.first_el_idx it rest r.last);
  room = omega (arith, size, r.room, r.bounded);
  bounded = omega (arith, size, r.room, r.bounded);
}
  where
    next : get_next_log_index b v.first_el_idx ≡ (v.first_el_idx + it.len) % log_size
    next = get_next-At b v.first_el_idx it r.first r.first_aligned r.held.0 r.held.1

    size : entry_size b v.first_el_idx ≡ it.len
    size = entry_size-At b v.first_el_idx it r.first r.first_aligned r.held.0 r.held.1

-- What the loop leaves: the invariant on the items it keeps, and room for the new one.
pub record Freed (b : Bytes) (need : ℕ) (v : LogVars) (items : List Item) : Type 0 where
  pub ring : IsRing b v items
  pub free : v.stored_size + need ≤ log_size

-- A round of the loop and a step of `drop_oldest` take the same branch.
Freed-if :
    (b : Bytes) (need : ℕ) (full fits : Bool) (v w : LogVars) (xs ys : List Item)
    → full ≡ not fits
    → (full ≡ true → Freed b need v xs)
    → (full ≡ false → Freed b need w ys)
    → Freed b need (if full then v else w) (if fits then ys else xs)
Freed-if b need true true v w xs ys e f g = absurd (false≢true (sym e))
Freed-if b need true false v w xs ys e f g = f refl
Freed-if b need false true v w xs ys e f g = g refl
Freed-if b need false false v w xs ys e f g = absurd (false≢true e)

if-same : (c : Bool) (xs : List Item) → (if c then xs else xs) ≡ xs
if-same true xs = refl
if-same false xs = refl

sub32-ltb :
    (stored need : ℕ) → ltb (sub32 log_size stored) need ≡ false → need ≤ sub32 log_size stored
sub32-ltb stored need e = ground arith

pub replace_loop-Freed :
    (b : Bytes) (need last first stored : ℕ) (items : List Item)
    → need ≤ log_size
    → IsRing b
        (record {
          first_el_idx = first;
          last_el_idx = last;
          num_items = length items;
          stored_size = stored;
        })
        items
    → Freed b need
        (replace_loop b need last (length items) first stored)
        (drop_oldest need stored items)
unfolding replace_loop
replace_loop-Freed b need last first stored [] le r =
    subst (Freed b need (replace_loop b need last 0 first stored))
      (if-same (leb (stored + need) log_size) [])
      (Freed-if b need (ltb (sub32 log_size stored) need) (leb (stored + need) log_size) cleared
        (record { first_el_idx = first; last_el_idx = last; num_items = 0; stored_size = stored })
        [] [] (ground (arith, r.bounded))
        (λ e. record { ring = IsRing-cleared b; free = omega arith })
        (λ e. record { ring = r; free = omega (arith, r.bounded, sub32-ltb stored need e) }))
replace_loop-Freed b need last first stored (it ∷ rest) le r =
    Freed-if b need (ltb (sub32 log_size stored) need) (leb (stored + need) log_size) _ _ _ _
      (ground (arith, r.bounded))
      (λ e.
        subst
          (λ x.
            Freed b need
              (replace_loop b need last (length rest) (get_next_log_index b first)
                (sub32 stored (entry_size b first)))
              (drop_oldest need x rest))
          (omega (
            arith,
            entry_size-At b first it r.first r.first_aligned r.held.0 r.held.1,
            r.room,
            r.bounded,
          ))
          (replace_loop-Freed b need last (get_next_log_index b first)
            (sub32 stored (entry_size b first)) rest le (IsRing-tail b _ it rest r)))
      (λ e. record { ring = r; free = omega (arith, r.bounded, sub32-ltb stored need e) })
