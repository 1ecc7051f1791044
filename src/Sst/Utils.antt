-- ===== src/Sst/Utils.antt =====
-- The checks of sst_utils.c on a range and on an asset's id.
use tfm_demo.Prelude.{ℕ, ◌+◌, ◌%◌, ◌^◌, ◌≤◌, ◌<◌, ◌≡◌, ◌↔◌, arith, ◌||◌, ◌==◌, ltb, if◌then◌else◌}

-- enum psa_sst_err_t
pub data SstErr : Type 0 where
  success asset_not_prepared asset_not_found param_error storage_system_full system_error : SstErr

-- a + b of uint64_t
abbrev pub add64 : ℕ → ℕ → ℕ
add64 a b = (a + b) % 2 ^ 64

unfoldable pub check_contained_in : ℕ → ℕ → ℕ → ℕ → SstErr
check_contained_in superset_start superset_size subset_start subset_size =
    if ltb subset_start superset_start
      || ltb (add64 superset_start superset_size) (add64 subset_start subset_size)
    then SstErr.param_error
    else SstErr.success

-- SST_INVALID_UUID
abbrev pub invalid_uuid : ℕ
invalid_uuid = 0

unfoldable pub validate_uuid : ℕ → SstErr
validate_uuid unique_id =
    if unique_id == invalid_uuid then SstErr.asset_not_found else SstErr.success

-- A range of 32-bit start and size is accepted exactly if it lies within the other one; no sum
-- rolls over.
pub check_contained_in_iff :
    (superset_start superset_size subset_start subset_size : ℕ)
    → superset_start < 2 ^ 32
    → superset_size < 2 ^ 32
    → subset_start < 2 ^ 32
    → subset_size < 2 ^ 32
    → (check_contained_in superset_start superset_size subset_start subset_size ≡ SstErr.success)
      ↔ ((superset_start ≤ subset_start)
          × (subset_start + subset_size ≤ superset_start + superset_size))
unfolding check_contained_in
check_contained_in_iff a b c d ha hb hc hd = ground arith
