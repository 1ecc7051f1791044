-- ===== src/Sst/Policy.antt =====
-- The access policy of sst_asset_management.c: who may do what with an asset. A pointer to an entry
-- of a table is the entry, NULL is none.
use tfm_demo.Prelude.{
  ℕ, zero, suc, ◌+◌, ◌%◌, ◌^◌, Option, none, some, Bool, not, ◌==◌, if◌then◌else◌, List, [], ◌∷◌,
  get_elem?, bit_and,
}

-- S_APP_ID, of sst_asset_management.h
abbrev pub s_app_id : ℕ
s_app_id = 4026531840

abbrev pub perm_forbidden : ℕ
perm_forbidden = 0

abbrev pub perm_reference : ℕ
perm_reference = 1

abbrev pub perm_write : ℕ
perm_write = 2

abbrev pub perm_read : ℕ
perm_read = 4

abbrev pub perm_bypass : ℕ
perm_bypass = 8

-- struct sst_asset_perm_t
pub record AssetPerm : Type 0 where
  pub app : ℕ
  pub perm : ℕ

-- enum psa_sst_asset_type_t, as far as the table names it
pub data AssetType : Type 0 where
  key_aes key_hmac key_rsa_public key_rsa_private cert_x_509 : AssetType

-- struct sst_asset_policy_t
pub record AssetPolicy : Type 0 where
  pub kind : AssetType
  pub asset_uuid : ℕ
  pub perms_count : ℕ
  pub max_size : ℕ
  pub perms_modes_start_idx : ℕ

-- (a & b) != 0
abbrev pub shares_bit : ℕ → ℕ → Bool
shares_bit a b = not (bit_and a b == 0)

-- The entry that the loop stops at, if it is the caller's.
abbrev pub if_app : ℕ → Option AssetPerm → Option AssetPerm → Option AssetPerm
if_app app_id none later = none
if_app app_id (some e) later = if e.app == app_id then some e else later

-- The loop of `sst_am_lookup_app_perms`, `rounds` entries from `idx` on. An index outside the table
-- gives none; no policy of the table has one.
unfoldable pub lookup_perms_from : List AssetPerm → ℕ → ℕ → ℕ → Option AssetPerm
lookup_perms_from modes app_id idx zero = none
lookup_perms_from modes app_id idx (suc rounds) =
    if_app app_id (get_elem? modes idx) (lookup_perms_from modes app_id (idx + 1) rounds)

unfoldable pub lookup_app_perms : List AssetPerm → AssetPolicy → ℕ → Option AssetPerm
lookup_app_perms modes db_entry app_id =
    lookup_perms_from modes app_id db_entry.perms_modes_start_idx db_entry.perms_count

unfoldable pub lookup_db_entry : List AssetPolicy → ℕ → Option AssetPolicy
lookup_db_entry [] uuid = none
lookup_db_entry (e ∷ rest) uuid =
    let later = lookup_db_entry rest uuid in if e.asset_uuid == uuid then some e else later

-- `secure` is whether `sst_utils_validate_secure_caller` reports a secure caller.
unfoldable pub check_s_ns_policy : Bool → ℕ → ℕ → ℕ
check_s_ns_policy secure app_id request_type =
    if secure
    then (if app_id == s_app_id
        then perm_bypass
        else if shares_bit request_type perm_read
        then perm_reference
        else perm_forbidden)
    else if app_id == s_app_id
    then perm_forbidden
    else request_type

-- The entry, if the caller's permissions match the request.
abbrev pub if_permitted : ℕ → AssetPolicy → Option AssetPerm → Option AssetPolicy
if_permitted request_type db_entry none = none
if_permitted request_type db_entry (some e) =
    if shares_bit e.perm request_type then some db_entry else none

-- The checks of the entry that the asset has.
abbrev pub if_listed : List AssetPerm → ℕ → ℕ → Option AssetPolicy → Option AssetPolicy
if_listed modes app_id request_type none = none
if_listed modes app_id request_type (some db_entry) =
    if request_type == perm_bypass
    then some db_entry
    else if_permitted request_type db_entry (lookup_app_perms modes db_entry app_id)

-- `sst_am_get_db_entry` once the request is sanitized
unfoldable pub entry_for : List AssetPolicy → List AssetPerm → ℕ → ℕ → ℕ → Option AssetPolicy
entry_for perms modes app_id uuid request_type =
    if request_type == perm_forbidden
    then none
    else if_listed modes app_id request_type (lookup_db_entry perms uuid)

-- `request_type` is of 8 bits.
unfoldable pub get_db_entry :
    List AssetPolicy → List AssetPerm → Bool → ℕ → ℕ → ℕ → Option AssetPolicy
get_db_entry perms modes secure app_id uuid request_type =
    entry_for perms modes app_id uuid (check_s_ns_policy secure app_id request_type % 2 ^ 8)
