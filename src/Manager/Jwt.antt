-- ===== src/Manager/Jwt.antt =====
-- The functions of sst_asset_management.c for tokens: sst_jwt_get_address and sst_jwt_sign, over the
-- library of jwt.c, and with them all requests that tfm_sst_veneers.c makes of the storage partition.
-- What the functions print is left out.
use tfm_demo.Prelude.{ℕ, ◌+◌, ◌==◌, Bool, if◌then◌else◌}
use tfm_demo.AuditLog.Buffer.{Bytes}
use tfm_demo.Sst.Utils.{SstErr}
use tfm_demo.Store.Meta.{u32_at}
use tfm_demo.Store.Objects.{store32}
use tfm_demo.Store.Flash.{Driver}
use tfm_demo.Manager.World.{World, Outcome, done, failed, Action}
use tfm_demo.Manager.Access.{Core, Tables}
use tfm_demo.Manager.Serve.{Request, serve}

-- jwt.c: each function takes the state of the builder and the memory, and leaves a result (0 if all
-- went well) and both. `no_builder` is what an uninitialised struct jwt_builder happens to hold.
pub record JwtLibrary : Type 1 where
  pub Builder : Type 0
  pub no_builder : Builder
  pub jwt_init_builder : ℕ → ℕ → Builder → Bytes → ℕ × Builder × Bytes
  pub jwt_add_payload : ℕ → ℕ → ℕ → Builder → Bytes → ℕ × Builder × Bytes
  pub jwt_sign : Bytes → ℕ → Builder → Bytes → ℕ × Builder × Bytes
  pub overflowed : Builder → Bool

-- struct tfm_sst_jwt_t, as far as it is used
pub record SstJwt : Type 0 where
  pub buffer : ℕ
  pub buffer_size : ℕ
  pub iat : ℕ
  pub exp : ℕ
  pub aud : ℕ

abbrev pub to_sst_jwt : Bytes → ℕ → SstJwt
to_sst_jwt ram src = record {
  buffer = u32_at ram src;
  buffer_size = u32_at ram (src + 8);
  iat = u32_at ram (src + 12);
  exp = u32_at ram (src + 16);
  aud = u32_at ram (src + 20);
}

abbrev pub simple_private_der_len : ℕ
simple_private_der_len = 32

-- The key's address goes where the caller says; nothing is checked.
unfoldable pub jwt_get_address : ℕ → ℕ → World → SstErr × World
jwt_get_address key_address address w =
    (SstErr.success, record w { ram = store32 w.ram address key_address })

module _ (lib : JwtLibrary) (simple_private_der : Bytes) where
  open lib use {Builder, no_builder, jwt_init_builder, jwt_add_payload, overflowed}

  -- if (res == 0) res = f(); else err = PSA_SST_ERR_PARAM_ERROR;
  unfoldable pub and_then :
      (Builder → Bytes → ℕ × Builder × Bytes)
      → ℕ
      → SstErr
      → Builder
      → Bytes
      → ℕ × SstErr × Builder × Bytes
  and_then f res err build ram =
      if res == 0
      then (let (r, b, m) = f build ram in (r, err, b, m))
      else (res, SstErr.param_error, build, ram)

  -- `data` is the address of the caller's structure.
  unfoldable pub sst_jwt_sign : ℕ → World → SstErr × World
  unfolding and_then
  sst_jwt_sign src w =
      let args = to_sst_jwt w.ram src in
      let (r0, b0, m0) = jwt_init_builder args.buffer args.buffer_size no_builder w.ram in
      let now = to_sst_jwt m0 src in
      let (r1, e1, b1, m1) =
        and_then (jwt_add_payload now.exp now.iat now.aud) r0 SstErr.success b0 m0 in
      let (r2, e2, b2, m2) =
        and_then (lib.jwt_sign simple_private_der simple_private_der_len) r1 e1 b1 m1 in
      (if overflowed b2 then SstErr.system_error else e2, record w { ram = m2 })

-- A call of any veneer of tfm_sst_veneers.c. Those for tokens pass an application and an asset too, which
-- are not read, and are given an address.
pub data VeneerCall : Type 0 where
  asset : ℕ → ℕ → Request → VeneerCall
  token_sign token_get_address : ℕ → VeneerCall

abbrev pub outcome_of : SstErr × World → Outcome (Unit {0})
outcome_of (SstErr.success, w) = done tt w
outcome_of (err, w) = failed err w

module _ (lib : JwtLibrary) (simple_private_der : Bytes) (key_address : ℕ) (d : Driver)
    (core : Core) (tables : Tables) where
  -- The requests for tokens reach their functions without a question to the core or to the policy.
  unfoldable pub serve_veneer : VeneerCall → Action (Unit {0})
  unfolding serve sst_jwt_sign jwt_get_address
  serve_veneer (asset app_id asset_uuid r) = serve d core tables app_id asset_uuid r
  serve_veneer (token_sign data_address) =
      λ w. outcome_of (sst_jwt_sign lib simple_private_der data_address w)
  serve_veneer (token_get_address address) = λ w. outcome_of (jwt_get_address key_address address w)
