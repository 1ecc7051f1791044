-- ===== src/Store/Ends.antt =====
-- What holds where an action ends: of the answer and the state if it returns, and of the state if it
-- returns an error or the power fails.
use tfm_demo.Prelude.{Bool, true, false, Option, none, some, ◌≡◌, ◌≢◌, refl}
use tfm_demo.Sst.Utils.{SstErr}
use tfm_demo.Store.Flash.{Reply, answer}
use tfm_demo.Store.Effects.{
  Storage, Outcome, Action, done, failed, power_lost, continue, renamed, tried, undone, when,
}

abbrev pub AtEnd {ℓ} :
    {A : Type ℓ} → Outcome A → (A → Storage → Type 0) → (Storage → Type 0) → Type 0
AtEnd (done a s) P R = P a s
AtEnd (failed e s) P R = R s
AtEnd (power_lost s) P R = R s

pub record Ends {ℓ} {A : Type ℓ} (o : Outcome A) (P : A → Storage → Type 0) (R : Storage → Type 0)
    : Type 0 where
  pub holds : AtEnd o P R

module _ {ℓ κ} {A : Type ℓ} {B : Type κ} {R : Storage → Type 0} where
  pub Ends-bind :
      {P : A → Storage → Type 0} {Q : B → Storage → Type 0} (o : Outcome A) (f : A → Action B)
      → Ends o P R
      → ((a : A) (s : Storage) → P a s → Ends (f a s) Q R)
      → Ends (continue o f) Q R
  Ends-bind (done a s) f h k = k a s h.holds
  Ends-bind (failed e s) f h k = record { holds = h.holds }
  Ends-bind (power_lost s) f h k = record { holds = h.holds }

abbrev pub IfSome {ℓ} :
    {A : Type ℓ} → (A → Storage → Type 0) → (Storage → Type 0) → Option A → Storage → Type 0
IfSome P R none s = R s
IfSome P R (some a) s = P a s

module _ {ℓ} {A : Type ℓ} {R : Storage → Type 0} where
  pub Ends-answer :
      {P : A → Storage → Type 0} (r : Reply) (a : A) (s : Storage)
      → (r ≡ Reply.ok → P a s)
      → (r ≢ Reply.ok → R s)
      → Ends (answer r a s) P R
  Ends-answer Reply.ok a s h k = record { holds = h refl }
  Ends-answer Reply.error a s h k = record { holds = k λ e. cc e }
  Ends-answer Reply.cut_off a s h k = record { holds = k λ e. cc e }

  pub Ends-done : {P : A → Storage → Type 0} (a : A) (s : Storage) → P a s → Ends (done a s) P R
  Ends-done a s h = record { holds = h }

  pub Ends-weaken :
      {P Q : A → Storage → Type 0} (o : Outcome A)
      → Ends o P R
      → ((a : A) (s : Storage) → P a s → Q a s)
      → Ends o Q R
  Ends-weaken (done a s) h k = record { holds = k a s h.holds }
  Ends-weaken (failed e s) h k = record { holds = h.holds }
  Ends-weaken (power_lost s) h k = record { holds = h.holds }

  -- The condition on the other outcomes is weakened.
  pub Ends-loosen :
      {P : A → Storage → Type 0} {R' : Storage → Type 0} (o : Outcome A)
      → Ends o P R'
      → ((s : Storage) → R' s → R s)
      → Ends o P R
  Ends-loosen (done a s) h k = record { holds = h.holds }
  Ends-loosen (failed e s) h k = record { holds = k s h.holds }
  Ends-loosen (power_lost s) h k = record { holds = k s h.holds }

  pub Ends-renamed :
      {P : A → Storage → Type 0} (e : SstErr) (o : Outcome A) → Ends o P R → Ends (renamed e o) P R
  Ends-renamed e (done a s) h = record { holds = h.holds }
  Ends-renamed e (failed e' s) h = record { holds = h.holds }
  Ends-renamed e (power_lost s) h = record { holds = h.holds }

  pub Ends-tried :
      {P : A → Storage → Type 0} (o : Outcome A) → Ends o P R → Ends (tried o) (IfSome P R) R
  Ends-tried (done a s) h = record { holds = h.holds }
  Ends-tried (failed e s) h = record { holds = h.holds }
  Ends-tried (power_lost s) h = record { holds = h.holds }

pub Ends-when :
    {P : Storage → Type 0} {R : Storage → Type 0} (b : Bool) (op : Action (Unit {0})) (s : Storage)
    → (b ≡ true → Ends (op s) (λ _. P) R)
    → (b ≡ false → P s)
    → Ends (when b op s) (λ _. P) R
Ends-when true op s h k = h refl
Ends-when false op s h k = record { holds = k refl }

-- A statement on what comes back, and nothing of other outcomes.
abbrev pub Anything : Storage → Type 0
Anything s = Unit {0}

-- Nothing is said of the outcomes other than a return.
module _ {ℓ} {A : Type ℓ} where
  pub Ends-any :
      {P : A → Storage → Type 0} {R : Storage → Type 0} (o : Outcome A)
      → Ends o P R
      → Ends o P Anything
  Ends-any (done a s) h = record { holds = h.holds }
  Ends-any (failed e s) h = record { holds = tt }
  Ends-any (power_lost s) h = record { holds = tt }

  pub Ends-undone :
      {P : A → Storage → Type 0} {R : Storage → Type 0} (f : Storage → Storage) (o : Outcome A)
      → Ends o P R
      → Ends (undone f o) P Anything
  Ends-undone f (done a s) h = record { holds = h.holds }
  Ends-undone f (failed e s) h = record { holds = tt }
  Ends-undone f (power_lost s) h = record { holds = tt }
