-- ===== src/Sst/Assets.antt =====
-- The tables of assets/sst_asset_defs.c: the assets, and who may do what with them.
use tfm_demo.Prelude.{ℕ, List, [], ◌∷◌}
use tfm_demo.Sst.Policy.{AssetPerm, AssetPolicy, AssetType}

abbrev policy : AssetType → ℕ → ℕ → ℕ → ℕ → AssetPolicy
policy kind uuid max_size count start = record {
  kind = kind;
  asset_uuid = uuid;
  perms_count = count;
  max_size = max_size;
  perms_modes_start_idx = start;
}

abbrev mode : ℕ → ℕ → AssetPerm
mode app perm = record { app = app; perm = perm }

abbrev pub asset_perms : List AssetPolicy
asset_perms =
    policy AssetType.key_aes 3 16 1 0
    ∷ (policy AssetType.key_aes 5 32 1 2
        ∷ (policy AssetType.key_rsa_public 6 128 1 3
            ∷ (policy AssetType.key_rsa_public 7 256 1 4
                ∷ (policy AssetType.key_rsa_private 8 512 1 5
                    ∷ (policy AssetType.cert_x_509 9 512 1 6
                        ∷ (policy AssetType.cert_x_509 10 2048 3 7
                            ∷ (policy AssetType.key_aes 4 24 3 7
                                ∷ (policy AssetType.key_hmac 11 28 1 10
                                    ∷ (policy AssetType.key_hmac 12 48 1 11 ∷ ([]))))))))))

abbrev pub asset_perms_modes : List AssetPerm
asset_perms_modes =
    mode 12 1
    ∷ (mode 12 7
        ∷ (mode 12 7
            ∷ (mode 12 7
                ∷ (mode 12 7
                    ∷ (mode 12 7
                        ∷ (mode 12 7
                            ∷ (mode 9 1
                                ∷ (mode 10 5
                                    ∷ (mode 11 7 ∷ (mode 10 7 ∷ (mode 11 3 ∷ ([]))))))))))))
