-- ===== src/Machine/Partial.antt =====
-- What holds in the state that an action leaves: if it comes back (`Post`), and that it does
-- (`Returns`).
use tfm_demo.Machine.State.{Machine}
use tfm_demo.Machine.Effects.{Action, Outcome, done, stopped, continue}

abbrev pub IfDone {ℓ κ} : {A : Type ℓ} → Outcome A → (A → Machine → Type κ) → Type κ
IfDone (done a m) Q = Q a m
IfDone (stopped f) Q = Unit

pub record Post {ℓ κ} {A : Type ℓ} (o : Outcome A) (Q : A → Machine → Type κ) : Type κ where
  pub holds : IfDone o Q

module _ {ℓ κ μ} {A : Type ℓ} {B : Type κ} where
  pub Post-bind :
      {P : A → Machine → Type μ} {Q : B → Machine → Type μ} (o : Outcome A) (f : A → Action B)
      → Post o P
      → ((a : A) (m : Machine) → P a m → Post (f a m) Q)
      → Post (continue o f) Q
  Post-bind (done a m) f h k = k a m h.holds
  Post-bind (stopped x) f h k = record { holds = tt }

pub Post-any {ℓ} : {A : Type ℓ} (o : Outcome A) → Post o (λ _ _. Unit {0})
Post-any (done a m) = record { holds = tt }
Post-any (stopped x) = record { holds = tt }

module _ {ℓ κ} {A : Type ℓ} where
  pub Post-weaken :
      {P Q : A → Machine → Type κ} (o : Outcome A)
      → Post o P
      → ((a : A) (m : Machine) → P a m → Q a m)
      → Post o Q
  Post-weaken (done a m) h k = record { holds = k a m h.holds }
  Post-weaken (stopped x) h k = record { holds = tt }

abbrev pub AndDone {ℓ} : {A : Type ℓ} → Outcome A → (A → Machine → Type 0) → Type 0
AndDone (done a m) Q = Q a m
AndDone (stopped f) Q = ⊥

pub record Returns {ℓ} {A : Type ℓ} (o : Outcome A) (Q : A → Machine → Type 0) : Type 0 where
  pub holds : AndDone o Q

module _ {ℓ κ} {A : Type ℓ} {B : Type κ} where
  -- What is known of the state between the two comes from a `Post` of the first.
  pub Returns-bind :
      {P P' : A → Machine → Type 0} {Q : B → Machine → Type 0} (o : Outcome A) (f : A → Action B)
      → Returns o P'
      → Post o P
      → ((a : A) (m : Machine) → P a m → Returns (f a m) Q)
      → Returns (continue o f) Q
  Returns-bind (done a m) f r h k = k a m h.holds
  Returns-bind (stopped x) f r h k = absurd r.holds
