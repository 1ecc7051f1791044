-- ===== src/Manager/World.antt =====
-- What the asset manager works on: the memory of its callers, and the storage.
use tfm_demo.Prelude.{Bool, Option, none, some, if◌then◌else◌}
use tfm_demo.AuditLog.Buffer.{Bytes}
use tfm_demo.Sst.Utils.{SstErr}
use tfm_demo.Store.Effects.{Storage}
use tfm_demo.Store.Effects

-- `ram` holds the byte at each address that a caller may name.
pub record World : Type 0 where
  pub ram : Bytes
  pub storage : Storage

pub data Outcome {ℓ} (A : Type ℓ) : Type ℓ where
  done : A → World → Outcome A
  failed : SstErr → World → Outcome A
  power_lost : World → Outcome A

abbrev pub Action {ℓ} : Type ℓ → Type ℓ
Action A = World → Outcome A

module _ {ℓ} {A : Type ℓ} where
  abbrev pub pure : A → Action A
  pure a w = done a w

  -- return err;
  abbrev pub fail : SstErr → Action A
  fail e w = failed e w

  abbrev pub gets : (World → A) → Action A
  gets f w = done (f w) w

  abbrev pub in_world : Bytes → Effects.Outcome A → Outcome A
  in_world ram (Effects.done a s) = done a (record { ram = ram; storage = s })
  in_world ram (Effects.failed e s) = failed e (record { ram = ram; storage = s })
  in_world ram (Effects.power_lost s) = power_lost (record { ram = ram; storage = s })

  -- A call of the object system, which is given no address of the caller's.
  abbrev pub on_storage : Effects.Action A → Action A
  on_storage op w = in_world w.ram (op w.storage)

  abbrev pub tried : Outcome A → Outcome (Option A)
  tried (done a w) = done (some a) w
  tried (failed e w) = done none w
  tried (power_lost w) = power_lost w

  -- err = op; and the code goes on whatever it is.
  abbrev pub attempt : Action A → Action (Option A)
  attempt op w = tried (op w)

-- The memory is written.
abbrev pub write_ram : (Bytes → Bytes) → Action (Unit {0})
write_ram f w = done tt (record w { ram = f w.ram })

module _ {ℓ κ} {A : Type ℓ} {B : Type κ} where
  abbrev pub continue : Outcome A → (A → Action B) → Outcome B
  continue (done a w) f = f a w
  continue (failed e w) f = failed e w
  continue (power_lost w) f = power_lost w

  infixl 5 ◌>>=◌
  abbrev pub ◌>>=◌ : Action A → (A → Action B) → Action B
  ◌>>=◌ m f w = continue (m w) f

infixl 5 ◌>>◌
abbrev pub ◌>>◌ {ℓ} : {B : Type ℓ} → Action (Unit {0}) → Action B → Action B
m >> k = m >>= λ _. k

-- if (!ok) return err;
abbrev pub require : Bool → SstErr → Action (Unit {0})
require ok e = if ok then pure tt else fail e
