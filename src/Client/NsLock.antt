-- ===== src/Client/NsLock.antt =====
-- The lock of the non-secure side, tfm_ns_lock_rtx.c, as steps of the threads that call
-- tfm_ns_lock_svc_dispatch and of tfm_ns_lock_init.
use tfm_demo.Prelude.{
  ℕ, ◌≡◌, ◌≢◌, ◌==◌, ltb, ◌&&◌, not, if◌then◌else◌, Option, none, some, Bool, true, false, refl,
  sym, ap, ◌∙◌, arith, if_eq, if_ne, subst,
}
use native.Mathlib.Decide.{ℕ_discrete}
use tfm_demo.SecureApi.Request.{tfm_success, tfm_error_generic}
use tfm_demo.Client.Api.{SvcArgs}

-- Entry 0 of `tfm_svc_dispatch_functions`, and ten handlers.
abbrev pub num_svc_dispatchers : ℕ
num_svc_dispatchers = 11

-- Where a thread is: outside, at osMutexAcquire, or between it and osMutexRelease.
pub data Phase : Type 0 where
  outside : Phase
  waiting inside : SvcArgs → Phase

-- Where main is in `tfm_ns_lock_init`: not in it, between the test of `init` and the assignment
-- to `id`, or before the assignment to `init`.
pub data Starting : Type 0 where
  away creating storing : Starting

-- `init` and whether `id` is a mutex (not NULL) of struct ns_lock_state, the owner of the mutex,
-- main and the threads.
pub record NsLock : Type 0 where
  pub starting : Starting
  pub init : Bool
  pub mutex : Bool
  pub owner : Option ℕ
  pub phase : ℕ → Phase

-- The tests of `tfm_ns_lock_svc_dispatch`, up to the call of osMutexAcquire.
unfoldable pub admits : Bool → SvcArgs → Bool
admits init a = init && (ltb 0 a.svc_num && ltb a.svc_num num_svc_dispatchers)

-- `tfm_ns_lock_init` up to the call of osMutexNew: it goes on, or returns at once with an error.
unfoldable pub init_called : NsLock → Option ℕ × NsLock
init_called s =
    if not s.init then (none, record s { starting = creating }) else (some tfm_error_generic, s)

-- The assignment of what osMutexNew returns; `created` is whether that is a mutex.
unfoldable pub init_creates : Bool → NsLock → NsLock
init_creates created s = record s { starting = storing; mutex = created; owner = none }

-- The last assignment and the result.
unfoldable pub init_ends : NsLock → ℕ × NsLock
init_ends s = (tfm_success, record s { starting = away; init = true })

abbrev pub at_phase : ℕ → Phase → NsLock → NsLock
at_phase t p s = record s { phase = λ u. if u == t then p else s.phase u }

-- One step. Only main calls `tfm_ns_lock_init`, so that no two calls of it overlap.
-- osMutexAcquire with osWaitForever comes back when the mutex is the caller's, and at once, with
-- an error that is not looked at, where there is none.
pub data Step : NsLock → NsLock → Type 0 where
  start_call : (s : NsLock) → s.starting ≡ away → Step s (init_called s).1
  start_create :
      (created : Bool) (s : NsLock) → s.starting ≡ creating → Step s (init_creates created s)
  start_end : (s : NsLock) → s.starting ≡ storing → Step s (init_ends s).1
  request :
      (t : ℕ) (a : SvcArgs) (s : NsLock)
      → s.phase t ≡ outside
      → admits s.init a ≡ true
      → Step s (at_phase t (waiting a) s)
  acquire :
      (t : ℕ) (a : SvcArgs) (s : NsLock)
      → s.phase t ≡ waiting a
      → s.mutex ≡ true
      → s.owner ≡ none
      → Step s (record (at_phase t (inside a) s) { owner = some t })
  acquire_fails :
      (t : ℕ) (a : SvcArgs) (s : NsLock)
      → s.phase t ≡ waiting a
      → s.mutex ≡ false
      → Step s (at_phase t (inside a) s)
  release :
      (t : ℕ) (a : SvcArgs) (s : NsLock)
      → s.phase t ≡ inside a
      → Step s (record (at_phase t outside s) { owner = none })

-- The state of the static variable when the program starts.
abbrev pub at_reset : NsLock
at_reset = record {
  starting = away;
  init = false;
  mutex = false;
  owner = none;
  phase = λ t. outside;
}

pub data Reach : NsLock → Type 0 where
  here : Reach at_reset
  next : {s u : NsLock} → Reach s → Step s u → Reach u

-- The thread is between osMutexAcquire and osMutexRelease.
abbrev pub IsInside : NsLock → ℕ → Type 0
IsInside s t = (a : SvcArgs) × (s.phase t ≡ inside a)

-- With a mutex, a thread that is inside owns it; before the initialisation all are outside; and main
-- is in the initialisation only before its end.
record IsGuarded (s : NsLock) : Type 0 where
  owned : s.mutex ≡ true → (t : ℕ) → IsInside s t → s.owner ≡ some t
  closed : s.init ≡ false → (t : ℕ) → s.phase t ≡ outside
  fresh : s.starting ≢ away → s.init ≡ false

module _ (s : NsLock) (t : ℕ) (p : Phase) where
  moved_other : (u : ℕ) → u ≢ t → IsInside (at_phase t p s) u → IsInside s u
  moved_other u ne (a, h) = (a, sym (if_ne {k = u} {j = t} p (s.phase u) ne) ∙ h)

  moved_self : (u : ℕ) → u ≡ t → IsInside (at_phase t p s) u → (a : SvcArgs) × (p ≡ inside a)
  moved_self u e (a, h) = (a, sym (if_eq {k = u} {j = t} p (s.phase u) e) ∙ h)

  moved_out : (u : ℕ) → p ≡ outside → s.phase u ≡ outside → (at_phase t p s).phase u ≡ outside
  moved_out u e h = ground arith

waiting-not-inside : (a b : SvcArgs) → waiting a ≢ inside b
waiting-not-inside a b h = cc h

outside-not-inside : (b : SvcArgs) → outside ≢ inside b
outside-not-inside b h = cc h

-- `init_called`, by what it finds.
abbrev called_as : NsLock → Bool → Option ℕ × NsLock
called_as s b =
    if not b then (none, record s { starting = creating }) else (some tfm_error_generic, s)

init_called-IsGuarded : (s : NsLock) → IsGuarded s → IsGuarded (init_called s).1
unfolding init_called
init_called-IsGuarded s g = by_cases s.init refl
  where
    by_cases : (b : Bool) → s.init ≡ b → IsGuarded (init_called s).1
    by_cases true e = subst (λ b. IsGuarded (called_as s b).1) (sym e) g
    by_cases false e =
        subst (λ b. IsGuarded (called_as s b).1) (sym e)
          (record { owned = g.owned; closed = g.closed; fresh = λ _. e })

no_mutex_yet : (s : NsLock) → IsGuarded s → s.init ≡ false → (t : ℕ) → ¬ (IsInside s t)
no_mutex_yet s g e t h = outside-not-inside h.0 (sym (g.closed e t) ∙ h.1)

admitted_init : (b : Bool) (a : SvcArgs) → admits b a ≡ true → b ≡ true
unfolding admits
admitted_init true a h = refl
admitted_init false a h = cc h

Step-IsGuarded : {s u : NsLock} → Step s u → IsGuarded s → IsGuarded u
unfolding init_creates init_ends
Step-IsGuarded (start_call s at) g = init_called-IsGuarded s g
Step-IsGuarded (start_create created s at) g = record {
  owned = λ m t h. absurd (no_mutex_yet s g (g.fresh (λ e. cc (e, at))) t h);
  closed = g.closed;
  fresh = λ _. g.fresh (λ e. cc (e, at));
}
Step-IsGuarded (start_end s at) g = record {
  owned = g.owned;
  closed = λ q t. g.closed (g.fresh (λ e. cc (e, at))) t;
  fresh = λ n. absurd (n refl);
}
Step-IsGuarded (request t a s out ok) g = record {
  owned = λ m u h. elim (ℕ_discrete u t) [
    | yes e ↦ absurd (waiting-not-inside a _ (moved_self s t (waiting a) u e h).1)
    | no ne ↦ g.owned m u (moved_other s t (waiting a) u ne h)
  ];
  closed = λ q u. absurd (cc (q, admitted_init s.init a ok));
  fresh = g.fresh;
}
Step-IsGuarded (acquire t a s at m o) g = record {
  owned = λ n u h. elim (ℕ_discrete u t) [
    | yes e ↦ ap some (sym e)
    | no ne ↦ absurd (cc (g.owned m u (moved_other s t (inside a) u ne h), o))
  ];
  closed = λ q u. absurd (cc (g.closed q t, at));
  fresh = g.fresh;
}
Step-IsGuarded (acquire_fails t a s at m) g = record {
  owned = λ n u h. absurd (cc (n, m));
  closed = λ q u. absurd (cc (g.closed q t, at));
  fresh = g.fresh;
}
Step-IsGuarded (release t a s at) g = record {
  owned = λ m u h. elim (ℕ_discrete u t) [
    | yes e ↦ absurd (outside-not-inside _ (moved_self s t outside u e h).1)
    | no ne ↦
        absurd
          (ne (some_inj (sym (g.owned m u (moved_other s t outside u ne h)) ∙ g.owned m t (a, at))))
  ];
  closed = λ q u. moved_out s t outside u refl (g.closed q u);
  fresh = g.fresh;
}
  where
    some_inj : {x y : ℕ} → some x ≡ some y → x ≡ y
    some_inj h = cc h

Reach-IsGuarded : {s : NsLock} → Reach s → IsGuarded s
Reach-IsGuarded here = record {
  owned = λ m t h. absurd (cc m);
  closed = λ q t. refl;
  fresh = λ n. refl;
}
Reach-IsGuarded (next r st) = Step-IsGuarded st (Reach-IsGuarded r)

-- In every order of the steps of any number of threads, from the reset on: where osMutexNew gave a
-- mutex, at most one thread is between osMutexAcquire and osMutexRelease; and until the lock is
-- initialised none is.
pub Reach-Excludes :
    (s : NsLock)
    → Reach s
    → (s.mutex ≡ true → (t u : ℕ) → IsInside s t → IsInside s u → t ≡ u)
      × (s.init ≡ false → (t : ℕ) → ¬ (IsInside s t))
Reach-Excludes s r = (
  λ m t u h k. cc ((Reach-IsGuarded r).owned m t h, (Reach-IsGuarded r).owned m u k),
  λ q t h. outside-not-inside h.0 (sym ((Reach-IsGuarded r).closed q t) ∙ h.1),
)
