-- ===== src/Machine/Effects.antt =====
-- Code that reads and writes the machine's state, and that may not come back.
use tfm_demo.Prelude.{ℕ, Bool, true, false, if◌then◌else◌}
use tfm_demo.Machine.State.{Machine, Cpu}

-- `halted` is the endless loop of `tfm_secure_api_error_handler`; `undefined` is an access outside
-- an array or through NULL.
pub data Fault : Type 0 where
  halted undefined : Fault

pub data Outcome {ℓ} (A : Type ℓ) : Type ℓ where
  done : A → Machine → Outcome A
  stopped : Fault → Outcome A

abbrev pub Action {ℓ} : Type ℓ → Type ℓ
Action A = Machine → Outcome A

module _ {ℓ} {A : Type ℓ} where
  abbrev pub pure : A → Action A
  pure a m = done a m

  abbrev pub stop : Fault → Action A
  stop f m = stopped f

  abbrev pub gets : (Machine → A) → Action A
  gets f m = done (f m) m

abbrev pub modify : (Machine → Machine) → Action (Unit {0})
modify f m = done tt (f m)

module _ {ℓ κ} {A : Type ℓ} {B : Type κ} where
  abbrev pub continue : Outcome A → (A → Action B) → Outcome B
  continue (done a m) f = f a m
  continue (stopped x) f = stopped x

  infixl 5 ◌>>=◌
  abbrev pub ◌>>=◌ : Action A → (A → Action B) → Action B
  ◌>>=◌ m f s = continue (m s) f

infixl 5 ◌>>◌
abbrev pub ◌>>◌ {ℓ} : {B : Type ℓ} → Action (Unit {0}) → Action B → Action B
m >> k = m >>= λ _. k

-- if (b) a;
abbrev pub when : Bool → Action (Unit {0}) → Action (Unit {0})
when b a = if b then a else pure tt

abbrev pub on_cpu : (Cpu → Cpu) → Action (Unit {0})
on_cpu f = modify λ m. record m { cpu = f m.cpu }

-- __disable_irq() and __enable_irq()
abbrev pub disable_irq : Action (Unit {0})
disable_irq = on_cpu λ c. record c { irq_disabled = true }

abbrev pub enable_irq : Action (Unit {0})
enable_irq = on_cpu λ c. record c { irq_disabled = false }

abbrev pub set_psp : ℕ → Action (Unit {0})
set_psp v = on_cpu λ c. record c { psp = v }

abbrev pub set_psplim : ℕ → Action (Unit {0})
set_psplim v = on_cpu λ c. record c { psplim = v }

abbrev pub set_npriv : Bool → Action (Unit {0})
set_npriv v = on_cpu λ c. record c { npriv = v }
