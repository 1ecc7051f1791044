-- ===== src/SecureApi/CallStack.antt =====
-- The partitions that are in a call, innermost first, as the database's links represent them.
use tfm_demo.Prelude.{
  ℕ, ◌<◌, ◌≡◌, ◌≢◌, ◌%◌, false, List, [], ◌∷◌, length, arith, word, ap, ◌∙◌, sym, subst, ◌⊎◌, inl,
  inr,
}
use tfm_demo.Machine.{Machine, Post, Post-weaken}
use tfm_demo.Machine.Platform.{Platform}
use tfm_demo.Spm.Types.{PartState, max_partitions, invalid_partition_idx}
use tfm_demo.SecureApi.Lock.{is_active, push_lock}
use tfm_demo.SecureApi.View.{Mark, mark_at, Globals}
use tfm_demo.SecureApi.Request.{SfnReq, tfm_success}
use tfm_demo.SecureApi.Entry.{Entered}
use tfm_demo.SecureApi.Push.{push_lock-Pushed}
use tfm_demo.Spm.Db.{get_partition_idx}

-- `j` is not in the list.
abbrev pub NotIn : ℕ → List ℕ → Type 0
NotIn j [] = Unit
NotIn j (i ∷ rest) = (j ≢ i) × NotIn j rest

-- From `i` on the callers are `rest`, each blocked, and the last has no caller.
abbrev pub Links : (ℕ → Mark) → ℕ → List ℕ → Type 0
Links k i [] = (k i).caller ≡ invalid_partition_idx
Links k i (j ∷ rest) =
    ((k i).caller ≡ j)
    × ((k j).state ≡ PartState.blocked)
    × (j < max_partitions)
    × NotIn i (j ∷ rest)
    × Links k j rest

-- The running partition was called by the first of `rest`, that by the second, and so on; nothing
-- else is in a call, and the lock counts the calls.
pub record IsCallStack (m : Machine) (rest : List ℕ) : Type 0 where
  pub in_db : m.db.running_partition_idx < max_partitions
  pub runs : (mark_at m m.db.running_partition_idx).state ≡ PartState.running
  pub links : Links (mark_at m) m.db.running_partition_idx rest
  pub quiet :
      (j : ℕ) → NotIn j (m.db.running_partition_idx ∷ rest) → is_active (mark_at m j).state ≡ false
  pub lock : m.secure_lock ≡ length rest % word

-- What is not active is not in a call.
NotIn-of_quiet :
    (k : ℕ → Mark) (i j : ℕ) (rest : List ℕ)
    → Links k i rest
    → is_active (k j).state ≡ false
    → NotIn j rest
NotIn-of_quiet k i j [] l q = tt
NotIn-of_quiet k i j (x ∷ rest) l q =
    ((λ e. ground (arith, l.1, q, e)), NotIn-of_quiet k x j rest l.4 q)

-- Two views agree on the state and the caller of the partitions in the list.
abbrev pub Agree : (ℕ → Mark) → (ℕ → Mark) → List ℕ → Type 0
Agree k k' [] = Unit
Agree k k' (j ∷ rest) =
    ((k' j).state ≡ (k j).state) × ((k' j).caller ≡ (k j).caller) × Agree k k' rest

pub Agree-of_NotIn :
    (k k' : ℕ → Mark) (a b : ℕ) (rest : List ℕ)
    → ((j : ℕ) → a ≢ j → b ≢ j → k' j ≡ k j)
    → NotIn a rest
    → NotIn b rest
    → Agree k k' rest
Agree-of_NotIn k k' a b [] h na nb = tt
Agree-of_NotIn k k' a b (j ∷ rest) h na nb = (
  ap (λ (x : Mark). x.state) (h j na.0 nb.0),
  ap (λ (x : Mark). x.caller) (h j na.0 nb.0),
  Agree-of_NotIn k k' a b rest h na.1 nb.1,
)

pub Links-frame :
    (k k' : ℕ → Mark) (i : ℕ) (rest : List ℕ)
    → (k' i).caller ≡ (k i).caller
    → Agree k k' rest
    → Links k i rest
    → Links k' i rest
Links-frame k k' i [] c a l = c ∙ l
Links-frame k k' i (j ∷ rest) c a l =
    (c ∙ l.0, a.0 ∙ l.1, l.2, l.3, Links-frame k k' j rest a.1 a.2 l.4)

-- A partition is not further down its own stack.
pub NotIn-Links : (k : ℕ → Mark) (i : ℕ) (rest : List ℕ) → Links k i rest → NotIn i rest
NotIn-Links k i [] l = tt
NotIn-Links k i (j ∷ rest) l = l.3

Entered-IsCallStack :
    {idx psp lr : ℕ} {m m' : Machine} (rest : List ℕ)
    → IsCallStack m rest
    → idx < max_partitions
    → is_active (mark_at m idx).state ≡ false
    → Entered m.db.running_partition_idx idx psp lr m m'
    → (m'.db.running_partition_idx ≡ idx) × IsCallStack m' (m.db.running_partition_idx ∷ rest)
Entered-IsCallStack {idx} {psp} {lr} {m} {m'} rest c lt q e = (
  run,
  record {
    in_db = rw run lt;
    runs = rw run (ground (arith, e.marks idx));
    links =
        subst (λ i. Links (mark_at m') i (caller ∷ rest)) (sym run)
          (
            ground (arith, e.marks idx),
            ground (arith, e.marks caller),
            c.in_db,
            (ne, NotIn-of_quiet k caller idx rest c.links q),
            Links-frame k (mark_at m') caller rest (ground (arith, e.marks caller))
                (Agree-of_NotIn k (mark_at m') caller idx rest (λ j a b. ground (arith, e.marks j))
                  (NotIn-Links k caller rest c.links) (NotIn-of_quiet k caller idx rest c.links q))
                c.links,
          );
    quiet = λ j n. ground (arith, run, n.0, n.1.0, e.marks j, c.quiet j n.1);
    lock = ap (λ (g : Globals). g.lock) e.rest ∙ (rw c.lock (omega arith));
  },
)
  where
    caller : ℕ
    caller = m.db.running_partition_idx

    k : ℕ → Mark
    k = mark_at m

    run : m'.db.running_partition_idx ≡ idx
    run = ap (λ (g : Globals). g.running) e.rest

    ne : idx ≢ caller
    ne h = ground (arith, c.runs, q, h)

-- From a call stack, and if it comes back, `tfm_push_lock` puts the callee on top of the stack, or
-- leaves the machine as it is and returns an error.
pub push_lock-IsCallStack :
    (p : Platform) (d : SfnReq) (lr : ℕ) (m : Machine) (rest : List ℕ)
    → IsCallStack m rest
    → Post (push_lock p d lr m) (λ s m'.
      ((s ≡ tfm_success)
        × (m'.db.running_partition_idx ≡ get_partition_idx m.db d.sp_id)
        × IsCallStack m' (m.db.running_partition_idx ∷ rest))
      ⊎ ((s ≢ tfm_success) × (m' ≡ m)))
push_lock-IsCallStack p d lr m rest c =
    Post-weaken (push_lock p d lr m) (push_lock-Pushed p d lr m) λ s m' h. elim h [
      | inl (ok, lt, q, e) ↦
          inl ((ok, (Entered-IsCallStack rest c lt q e).0, (Entered-IsCallStack rest c lt q e).1))
      | inr x ↦ inr x
    ]
