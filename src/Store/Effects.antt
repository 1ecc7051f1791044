-- ===== src/Store/Effects.antt =====
-- The state of the file system and code that changes it. An outcome keeps the state that the code
-- leaves: where it returns, where it returns an error, and where the power fails in between.
use tfm_demo.Prelude.{ℕ, Option, none, some, Bool, if◌then◌else◌}
use tfm_demo.AuditLog.Buffer.{Bytes}
use tfm_demo.Sst.Utils.{SstErr}

-- struct sst_metadata_block_header: the bytes of `crypto`, and the other members
pub record Header : Type 0 where
  pub crypto : Bytes
  pub scratch_idx : ℕ
  pub fs_version : ℕ
  pub active_swap_count : ℕ

-- sst_system_ctx and sst_buf_plain_text of sst_core.c, sst_system_ready and the bytes of
-- g_sst_object of sst_object_system.c, the contents of the flash, and a count of the
-- requests made to its driver, which stands for the driver's own state.
pub record Storage : Type 0 where
  pub meta_block_header : Header
  pub active_metablock : ℕ
  pub scratch_metablock : ℕ
  pub buf_plain_text : Bytes
  pub system_ready : Bool
  pub object : Bytes
  pub flash : Bytes
  pub requests : ℕ

pub data Outcome {ℓ} (A : Type ℓ) : Type ℓ where
  done : A → Storage → Outcome A
  failed : SstErr → Storage → Outcome A
  power_lost : Storage → Outcome A

abbrev pub Action {ℓ} : Type ℓ → Type ℓ
Action A = Storage → Outcome A

module _ {ℓ} {A : Type ℓ} where
  abbrev pub pure : A → Action A
  pure a s = done a s

  -- return err;
  abbrev pub fail : SstErr → Action A
  fail e s = failed e s

  abbrev pub gets : (Storage → A) → Action A
  gets f s = done (f s) s

  abbrev pub renamed : SstErr → Outcome A → Outcome A
  renamed e (done a s) = done a s
  renamed e (failed e' s) = failed e s
  renamed e (power_lost s) = power_lost s

  -- if (err != PSA_SST_ERR_SUCCESS) return e;
  abbrev pub as_error : SstErr → Action A → Action A
  as_error e op s = renamed e (op s)

  abbrev pub tried : Outcome A → Outcome (Option A)
  tried (done a s) = done (some a) s
  tried (failed e s) = done none s
  tried (power_lost s) = power_lost s

  -- The result is kept in `err` and looked at later, or never.
  abbrev pub attempt : Action A → Action (Option A)
  attempt op s = tried (op s)

  abbrev pub undone : (Storage → Storage) → Outcome A → Outcome A
  undone f (done a s) = done a s
  undone f (failed e s) = failed e (f s)
  undone f (power_lost s) = power_lost s

  -- if (err != PSA_SST_ERR_SUCCESS) { f; return err; }
  abbrev pub or_undo : (Storage → Storage) → Action A → Action A
  or_undo f op s = undone f (op s)

abbrev pub modify : (Storage → Storage) → Action (Unit {0})
modify f s = done tt (f s)

module _ {ℓ κ} {A : Type ℓ} {B : Type κ} where
  abbrev pub continue : Outcome A → (A → Action B) → Outcome B
  continue (done a s) f = f a s
  continue (failed e s) f = failed e s
  continue (power_lost s) f = power_lost s

  infixl 5 ◌>>=◌
  abbrev pub ◌>>=◌ : Action A → (A → Action B) → Action B
  (m >>= f) s = continue (m s) f

infixl 5 ◌>>◌
abbrev pub ◌>>◌ {ℓ} : {B : Type ℓ} → Action (Unit {0}) → Action B → Action B
m >> k = m >>= λ _. k

-- if (b) a;
abbrev pub when : Bool → Action (Unit {0}) → Action (Unit {0})
when b a = if b then a else pure tt
