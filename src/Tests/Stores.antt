-- ===== src/Tests/Stores.antt =====
-- The audit log and the policy of the secure storage on sample values.
use tfm_demo.Prelude.{
  ◌+◌, ◌≡◌, ◌≢◌, refl, some, true, false, arith, List, [], ◌∷◌, ◌++◌, min, length,
}
use tfm_demo.AuditLog.Item.{LogLine}
use tfm_demo.AuditLog.Log.{
  LogErr, add_at, log_replace_item, replace_loop, Log, cleared, log_core_add_line,
  log_core_delete_items, log_core_get_info,
}
use tfm_demo.AuditLog.Items.{Item}
use tfm_demo.AuditLog.Format.{item_of, IsItemOf}
use tfm_demo.AuditLog.Replace.{IsLog, IsRing-cleared, drop_oldest}
use tfm_demo.AuditLog.Add.{log_core_add_line-IsLog}
use tfm_demo.AuditLog.Delete.{
  drop_items, log_core_delete_items-IsLog, log_core_delete_items-keeps_size,
}
use tfm_demo.AuditLog.Retrieve.{log_read_recent, log_core_retrieve}
use tfm_demo.AuditLog.RecentLaws.{ReadsRecent, log_core_retrieve-ReadsRecent}
use tfm_demo.Sst.Policy.{
  AssetPolicy, AssetType, perm_read, perm_write, s_app_id, get_db_entry, lookup_db_entry,
  lookup_perms_from, lookup_app_perms, entry_for, check_s_ns_policy,
}
use tfm_demo.Sst.PolicyLaws.{Listed, Permits, get_db_entry-non_secure}
use tfm_demo.Sst.Assets.{asset_perms, asset_perms_modes}

abbrev empty_log : Log
empty_log = record { state = cleared; buffer = λ _. 0; scratch = λ _. 0; global_timestamp = 41 }

empty_log-IsLog : IsLog empty_log []
empty_log-IsLog = record { ring = IsRing-cleared (λ _. 0); empty = (refl, refl) }

abbrev line : LogLine
line = record { size = 20; body = λ k. k + 100 }

abbrev first_item : Item
first_item = item_of 41 line (λ _. 0)

log_core_add_line-IsLog_example :
    ((log_core_add_line true line empty_log).0 ≡ LogErr.success)
    × IsLog (log_core_add_line true line empty_log).1 (first_item ∷ [])
    × IsItemOf 41 line first_item
log_core_add_line-IsLog_example =
    log_core_add_line-IsLog empty_log line [] refl (omega arith) empty_log-IsLog

abbrev one_line : Log
one_line = (log_core_add_line true line empty_log).1

abbrev second_item : Item
second_item = item_of one_line.global_timestamp line one_line.scratch

abbrev two_lines : Log
two_lines = (log_core_add_line true line one_line).1

two_items : List Item
two_items = drop_oldest 44 one_line.state.stored_size (first_item ∷ []) ++ (second_item ∷ [])

two_lines-IsLog : IsLog two_lines two_items
unfolding two_items
two_lines-IsLog =
    (log_core_add_line-IsLog one_line line (first_item ∷ []) refl (omega arith)
      log_core_add_line-IsLog_example.1).1

two_lines_count : two_lines.state.num_items ≡ 2
unfolding log_core_add_line add_at log_replace_item replace_loop
two_lines_count = refl

log_core_delete_items-IsLog_example :
    IsLog (log_core_delete_items true 1 two_lines).2 (drop_items 1 two_items)
    × ((log_core_delete_items true 1 two_lines).0 ≡ LogErr.success)
    × ((log_core_delete_items true 1 two_lines).1 ≡ some (min 1 (length two_items)))
log_core_delete_items-IsLog_example =
    log_core_delete_items-IsLog 1 two_lines two_items two_lines-IsLog

log_core_delete_items-keeps_size_example :
    (log_core_get_info (log_core_delete_items true 1 two_lines).2).size
    ≡ (log_core_get_info two_lines).size
log_core_delete_items-keeps_size_example =
    log_core_delete_items-keeps_size 1 two_lines (omega (arith, two_lines_count))

abbrev sha224_hash : AssetPolicy
sha224_hash = record {
  kind = AssetType.key_hmac;
  asset_uuid = 11;
  perms_count = 1;
  max_size = 28;
  perms_modes_start_idx = 10;
}

abbrev aes_key_192 : AssetPolicy
aes_key_192 = record {
  kind = AssetType.key_aes;
  asset_uuid = 4;
  perms_count = 3;
  max_size = 24;
  perms_modes_start_idx = 7;
}

sha224_granted :
    get_db_entry asset_perms asset_perms_modes false 10 11 perm_write ≡ some sha224_hash
unfolding get_db_entry check_s_ns_policy entry_for lookup_db_entry lookup_app_perms
    lookup_perms_from
sha224_granted = refl

aes_delegated : get_db_entry asset_perms asset_perms_modes true 9 4 perm_read ≡ some aes_key_192
unfolding get_db_entry check_s_ns_policy entry_for lookup_db_entry lookup_app_perms
    lookup_perms_from
aes_delegated = refl

get_db_entry-non_secure_example :
    (10 ≢ s_app_id)
    × Listed asset_perms 11 sha224_hash
    × Permits asset_perms_modes 10 1 10 perm_write
get_db_entry-non_secure_example =
    get_db_entry-non_secure asset_perms asset_perms_modes 10 11 perm_write sha224_hash (omega arith)
      sha224_granted

-- Of two items of 44 bytes one fits.
log_core_retrieve-ReadsRecent_example :
    ReadsRecent 60 two_lines.state.stored_size two_items
      (log_core_retrieve 2 60 log_read_recent (λ _. 0) two_lines)
log_core_retrieve-ReadsRecent_example =
    log_core_retrieve-ReadsRecent 2 60 (λ _. 0) two_lines two_items two_lines-IsLog (omega arith)
      (omega (arith, two_lines_count, two_lines-IsLog.ring.count))
