-- ===== src/Prelude/Tests.antt =====
-- Boolean tests on the native numbers, and the conditional.
use Prim.Native.Nat.{ℕ, ◌≤◌, ◌<◌, compare, Ordering}
use mathlib.Core.Path.{◌≡◌, refl, ap}
use mathlib.Core.Logic.{◌≢◌, ◌↔◌, ◌⊎◌, inl, inr}
use mathlib.Core.Bool.{Bool, true, false}
use mathlib.Core.Option.{Option, none, some}
use native.Mathlib.Omega.{arith}

-- These compute to `compare`, which `ground` and `grind` read with no lemma listed.
abbrev pub ltb : ℕ → ℕ → Bool
ltb a b = elim (compare a b) [ Ordering.lt ↦ true | _ ↦ false ]

abbrev pub leb : ℕ → ℕ → Bool
leb a b = elim (compare a b) [ Ordering.gt ↦ false | _ ↦ true ]

infix 50 ◌==◌
abbrev pub ◌==◌ : ℕ → ℕ → Bool
a == b = elim (compare a b) [ Ordering.eq ↦ true | _ ↦ false ]

infix 1 if◌then◌else◌
abbrev pub if◌then◌else◌ {ℓ} : {A : Type ℓ} → Bool → A → A → A
if true then x else y = x
if false then x else y = y

-- `omega` reads a test through such lemmas.
pub ltb→lt : (a b : ℕ) → ltb a b ≡ true → a < b
ltb→lt a b h = ground arith

pub lt→ltb : (a b : ℕ) → a < b → ltb a b ≡ true
lt→ltb a b h = ground arith

pub leb→le : (a b : ℕ) → leb a b ≡ true → a ≤ b
leb→le a b h = ground arith

pub ==_iff : (a b : ℕ) → ((a == b) ≡ true) ↔ (a ≡ b)
==_iff a b = ground arith

pub ruleset tests = (arith, ltb→lt, lt→ltb, leb→le)

-- To split on a computed value and keep the equation.
pub Bool-cases : (b : Bool) → (b ≡ true) ⊎ (b ≡ false)
Bool-cases true = inl refl
Bool-cases false = inr refl

pub Option-cases {ℓ} : {A : Type ℓ} (o : Option A) → (o ≡ none) ⊎ ((a : A) × (o ≡ some a))
Option-cases none = inl refl
Option-cases (some a) = inr (a, refl)

-- A value that a test chooses to give is the one of the branch taken.
pub if-some {ℓ} :
    {A : Type ℓ} (c : Bool) (x e : A) (other : Option A)
    → (if c then some x else other) ≡ some e
    → ((c ≡ true) × (x ≡ e)) ⊎ ((c ≡ false) × (other ≡ some e))
if-some true x e other h = inl (refl, cc h)
if-some false x e other h = inr (refl, h)

==_self : (k : ℕ) → (k == k) ≡ true
==_self k = ground arith

==_ne : (k j : ℕ) → k ≢ j → (k == j) ≡ false
==_ne k j h = ground arith

-- The branch of a test for equality.
module _ {ℓ} {A : Type ℓ} where
  pub if_eq : {k j : ℕ} (x y : A) → k ≡ j → (if k == j then x else y) ≡ x
  if_eq {j = j} x y e = rw e (ap (λ (b : Bool). if b then x else y) (==_self j))

  pub if_ne : {k j : ℕ} (x y : A) → k ≢ j → (if k == j then x else y) ≡ y
  if_ne {k = k} {j = j} x y h = ap (λ (b : Bool). if b then x else y) (==_ne k j h)
