-- ===== src/SecureApi/Entry.antt =====
-- What entering a partition changes: the effect of `enter_partition` on the view.
use tfm_demo.Prelude.{ℕ, Bool, ◌≡◌, ◌==◌, if◌then◌else◌, arith, add32, ap, ◌∙◌}
use tfm_demo.Machine.{Machine, Post, Post-bind, Post-weaken, when}
use tfm_demo.Machine.Platform.{Platform}
use tfm_demo.Spm.Types.{PartState}
use tfm_demo.Spm.Db.{set_share}
use tfm_demo.SecureApi.Request.{SfnReq, tfm_success}
use tfm_demo.SecureApi.Lock.{
  enter_partition, select_stack, save_context, swap_sandbox, load_frame, switches, hand_over,
}
use tfm_demo.SecureApi.View.{Mark, mark_at, Globals, globals, Same, Same-trans}

-- The effect of `hand_over`.
pub record HandedOver (caller idx : ℕ) (m m' : Machine) : Type 0 where
  pub marks :
      (j : ℕ)
      → mark_at m' j ≡ (
          if j == idx
          then record (mark_at m idx) { state = PartState.running }
          else if j == caller
          then record (mark_at m caller) { state = PartState.blocked }
          else mark_at m j)
  pub rest : globals m' ≡ record (globals m) { running = idx; lock = add32 m.secure_lock 1 }

module _ (p : Platform) (m : Machine) where
  pub select_stack-Same :
      (caller flags idx psp : ℕ)
      → Post (select_stack p caller flags idx psp m) (λ _ m'. Same m m' × (m'.cpu ≡ m.cpu))
  unfolding select_stack
  select_stack-Same caller flags idx psp = ground arith

  pub swap_sandbox-Same : (caller idx : ℕ) → Post (swap_sandbox p caller idx m) (λ _ m'. Same m m')
  unfolding swap_sandbox
  swap_sandbox-Same caller idx = ground arith

  pub set_share-Same : (idx s : ℕ) → Post (set_share p idx s m) (λ _ m'. Same m m')
  unfolding set_share
  set_share-Same idx s = ground arith

  pub load_frame-Same :
      (d : SfnReq) (b : Bool) (x y : ℕ) → Post (when b (load_frame p d x y) m) (λ _ m'. Same m m')
  unfolding load_frame
  load_frame-Same d b x y = ground arith

hand_over-view :
    (m : Machine) (caller idx : ℕ)
    → Post (hand_over caller idx m) (λ s m'. (s ≡ tfm_success) × HandedOver caller idx m m')
unfolding hand_over
hand_over-view m caller idx = ground arith

-- The mark of partition `j` once the caller's context is saved.
abbrev pub saved_mark : Machine → ℕ → ℕ → ℕ → ℕ → ℕ → Mark
saved_mark m caller idx psp lr j =
    if j == idx
    then record (mark_at m idx) { caller = caller; psp = psp; psplim = m.cpu.psplim; lr = lr }
    else mark_at m j

pub save_context-view :
    (m : Machine) (caller idx psp lr : ℕ)
    → Post (save_context caller idx psp lr m) (λ _ m'.
      ((j : ℕ) → mark_at m' j ≡ saved_mark m caller idx psp lr j) × (globals m' ≡ globals m))
unfolding save_context
save_context-view m caller idx psp lr = ground arith

-- The mark of partition `j` once `idx` is entered.
abbrev pub entered_mark : Machine → ℕ → ℕ → ℕ → ℕ → ℕ → Mark
entered_mark m caller idx psp lr j =
    if j == idx
    then record (saved_mark m caller idx psp lr idx) { state = PartState.running }
    else if j == caller
    then record (mark_at m caller) { state = PartState.blocked }
    else mark_at m j

pub record Entered (caller idx psp lr : ℕ) (m m' : Machine) : Type 0 where
  pub marks : (j : ℕ) → mark_at m' j ≡ entered_mark m caller idx psp lr j
  pub rest : globals m' ≡ record (globals m) { running = idx; lock = add32 m.secure_lock 1 }

compose :
    {caller idx psp lr : ℕ} {m m1 m2 m5 m6 : Machine}
    → Same m m1
    → m1.cpu ≡ m.cpu
    → ((j : ℕ) → mark_at m2 j ≡ saved_mark m1 caller idx psp lr j)
    → globals m2 ≡ globals m1
    → Same m2 m5
    → HandedOver caller idx m5 m6
    → Entered caller idx psp lr m m6
compose {caller} {idx} {psp} {lr} {m} {m1} {m2} {m5} {m6} s c saved g t h = record {
  marks = λ j. ground (
    arith,
    s.marks j,
    s.marks idx,
    s.marks caller,
    saved j,
    saved idx,
    saved caller,
    t.marks j,
    t.marks idx,
    t.marks caller,
    h.marks j,
  );
  rest =
      h.rest
      ∙ ap (λ (x : Globals). record x { running = idx; lock = add32 x.lock 1 })
          (t.rest ∙ g ∙ s.rest);
}

module _ (p : Platform) where
  pub enter_partition-Entered :
      (d : SfnReq) (lr caller flags idx psp : ℕ) (m : Machine)
      → Post
          (enter_partition p d lr caller flags idx psp m)
          (λ s m'. (s ≡ tfm_success) × Entered caller idx psp lr m m')
  unfolding enter_partition
  enter_partition-Entered d lr caller flags idx psp m =
      Post-bind (select_stack p caller flags idx psp m) _
        (select_stack-Same p m caller flags idx psp)
        λ st m1 s1.
          Post-bind (save_context caller idx psp lr m1) _ (save_context-view m1 caller idx psp lr)
            λ _ m2 s2.
              Post-bind (swap_sandbox p caller idx m2) _ (swap_sandbox-Same p m2 caller idx)
                λ _ m3 s3.
                  Post-bind (set_share p idx (if d.ns_caller then 1 else 2) m3) _
                    (set_share-Same p m3 idx (if d.ns_caller then 1 else 2))
                    λ _ m4 s4.
                      Post-bind (when (switches p d m4) (load_frame p d st.0 st.1) m4) _
                        (load_frame-Same p m4 d (switches p d m4) st.0 st.1)
                        λ _ m5 s5.
                          Post-weaken (hand_over caller idx m5) (hand_over-view m5 caller idx)
                            λ _ m6 s6. (
                              s6.0,
                              compose s1.0 s1.1 s2.0 s2.1 (Same-trans s3 (Same-trans s4 s5)) s6.1,
                            )
