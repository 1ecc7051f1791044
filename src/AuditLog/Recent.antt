-- ===== src/AuditLog/Recent.antt =====
-- The newest items that fit a buffer: the loop of `log_core_retrieve` that drops old items ends.
use tfm_demo.Prelude.{
  ℕ, zero, suc, ◌+◌, ◌%◌, ◌≤◌, ◌<◌, ◌≡◌, ◌⊎◌, ◌∙◌, refl, sym, subst, arith, Option, none, some,
  List, [], ◌∷◌, length, ltb, true, false, Bool-cases, inl, inr, word,
}
use tfm_demo.AuditLog.Buffer.{Bytes, log_size}
use tfm_demo.AuditLog.Log.{get_next_log_index}
use tfm_demo.AuditLog.Items.{Item, total, Holds, get_next-At}
use tfm_demo.AuditLog.Delete.{drop_items}
use tfm_demo.AuditLog.Retrieve.{Span, smaller, drop_first, recent_loop}

-- The size that counts for the items from the `m`-th on: at first it is the size kept.
abbrev pub size_from : ℕ → List Item → ℕ → ℕ
size_from stored items zero = stored
size_from stored items (suc m) = total (drop_items (suc m) items)

-- The span names the items of the ring, in front of `end`.
pub record IsSpan (b : Bytes) (end size : ℕ) (items : List Item) (v : Span) : Type 0 where
  pub held : Holds b v.start_idx items
  pub below : v.start_idx < log_size
  pub aligned : v.start_idx % 4 ≡ 0
  pub behind : end ≡ (v.start_idx + total items) % log_size
  pub count : v.num_items ≡ length items
  pub small : length items < word
  pub whole : total items ≤ log_size
  pub room : total items ≤ v.stored_size
  pub tight : (v.stored_size ≡ total items) ⊎ (0 < length items)
  pub read : v.retrieved_log_size ≡ smaller size v.stored_size

-- The fewest items are dropped such that the others fit.
pub record IsRecent (b : Bytes) (size stored : ℕ) (items : List Item) (v : Span) : Type 0 where
  pub dropped : ℕ
  pub few : dropped ≤ length items
  pub held : Holds b v.start_idx (drop_items dropped items)
  pub below : v.start_idx < log_size
  pub count : v.num_items ≡ length (drop_items dropped items)
  pub exact : v.stored_size ≡ size_from stored items dropped
  pub read : v.retrieved_log_size ≡ v.stored_size
  pub fits : v.stored_size ≤ size
  pub room : total (drop_items dropped items) ≤ v.stored_size
  pub least : (m : ℕ) → m < dropped → size < size_from stored items m

abbrev pub Recent : Bytes → ℕ → ℕ → List Item → Option Span → Type 0
Recent b size stored items none = ⊥
Recent b size stored items (some v) = IsRecent b size stored items v

stop :
    (b : Bytes) (end size : ℕ) (items : List Item) (v : Span)
    → IsSpan b end size items v
    → ltb v.retrieved_log_size v.stored_size ≡ false
    → IsRecent b size v.stored_size items v
stop b end size items v s h = record {
  dropped = 0;
  few = omega arith;
  held = s.held;
  below = s.below;
  count = s.count;
  exact = refl;
  read = ground (arith, s.read, h);
  fits = ground (arith, s.read, h);
  room = s.room;
  least = λ m l. absurd (omega (arith, l));
}

too_long :
    (b : Bytes) (end size : ℕ) (items : List Item) (v : Span)
    → IsSpan b end size items v
    → ltb v.retrieved_log_size v.stored_size ≡ true
    → size < v.stored_size
too_long b end size items v s h = ground (arith, s.read, h)

drop_first-IsSpan :
    (b : Bytes) (end size : ℕ) (it : Item) (rest : List Item) (v : Span)
    → IsSpan b end size (it ∷ rest) v
    → size < v.stored_size
    → IsSpan b end size rest (drop_first b end v) × ((drop_first b end v).stored_size ≡ total rest)
unfolding drop_first
drop_first-IsSpan b end size it rest v s lt = (
  record {
    held = subst (λ (n : ℕ). Holds b n rest) (sym next) s.held.2;
    below = omega (arith, next);
    aligned = omega (arith, next, s.held.1.aligned, s.aligned);
    behind = omega (arith, s.behind, next);
    count = omega (arith, s.count, s.small);
    small = omega (arith, s.small);
    whole = omega (arith, s.whole);
    room = omega (arith, left);
    tight = inl left;
    read = ground (arith, asked, lt);
  },
  left,
)
  where
    next : get_next_log_index b v.start_idx ≡ (v.start_idx + it.len) % log_size
    next = get_next-At b v.start_idx it s.below s.aligned s.held.0 s.held.1

    left : (drop_first b end v).stored_size ≡ total rest
    left = ground (arith, next, s.behind, s.whole, s.held.1.sized)

    asked : v.retrieved_log_size ≡ size
    asked = ground (arith, s.read, lt)

-- One more item is dropped.
IsRecent-drop :
    (b : Bytes) (size stored : ℕ) (it : Item) (rest : List Item) (v v' : Span)
    → size < stored
    → v.stored_size ≡ total rest
    → IsRecent b size v.stored_size rest v'
    → IsRecent b size stored (it ∷ rest) v'
IsRecent-drop b size stored it rest v v' lt left r = record {
  dropped = suc r.dropped;
  few = omega (arith, r.few);
  held = r.held;
  below = r.below;
  count = r.count;
  exact = r.exact ∙ same r.dropped;
  read = r.read;
  fits = r.fits;
  room = r.room;
  least = least;
}
  where
    same : (m : ℕ) → size_from v.stored_size rest m ≡ total (drop_items m rest)
    same zero = left
    same (suc m) = refl

    least : (m : ℕ) → m < suc r.dropped → size < size_from stored (it ∷ rest) m
    least zero l = lt
    least (suc m) l = subst (λ (n : ℕ). size < n) (same m) (r.least m (omega (arith, l)))

nothing_left :
    {b : Bytes} {end size : ℕ} {v : Span}
    → IsSpan b end size [] v
    → ltb v.retrieved_log_size v.stored_size ≡ false
nothing_left s = ground (arith, s.tight)

-- Fuel for one round for each item is enough.
pub recent_loop-Recent :
    (b : Bytes) (end size fuel : ℕ) (items : List Item) (v : Span)
    → length items ≤ fuel
    → IsSpan b end size items v
    → Recent b size v.stored_size items (recent_loop b end fuel v)
unfolding recent_loop
recent_loop-Recent b end size zero [] v le s =
    rw (nothing_left s) (stop b end size [] v s (nothing_left s))
recent_loop-Recent b end size (suc fuel) [] v le s =
    rw (nothing_left s) (stop b end size [] v s (nothing_left s))
recent_loop-Recent b end size zero (it ∷ rest) v le s = absurd (omega (arith, le))
recent_loop-Recent b end size (suc fuel) (it ∷ rest) v le s =
    elim (Bool-cases (ltb v.retrieved_log_size v.stored_size)) [
      | inr fits ↦ rw fits (stop b end size (it ∷ rest) v s fits)
      | inl long ↦
          let lt : size < v.stored_size = too_long b end size (it ∷ rest) v s long in
          let d : IsSpan b end size rest (drop_first b end v)
              × ((drop_first b end v).stored_size ≡ total rest) =
            drop_first-IsSpan b end size it rest v s lt in
          rw long (
            lifted lt d.1 (recent_loop b end fuel (drop_first b end v)) (
              recent_loop-Recent b end size fuel rest (drop_first b end v) (omega (arith, le)) d.0))
    ]
  where
    lifted :
        size < v.stored_size
        → (drop_first b end v).stored_size ≡ total rest
        → (o : Option Span) → Recent b size (drop_first b end v).stored_size rest o
        → Recent b size v.stored_size (it ∷ rest) o
    lifted lt left none r = elim r [ ]
    lifted lt left (some v') r = IsRecent-drop b size _ it rest (drop_first b end v) v' lt left r
