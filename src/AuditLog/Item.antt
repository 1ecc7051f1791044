-- ===== src/AuditLog/Item.antt =====
-- A log item in the scratch buffer: `log_format_buffer` of log_core.c over struct log_hdr.
use tfm_demo.Prelude.{ℕ, ◌+◌, ◌-◌, ltb, if◌then◌else◌, ◌^◌, ◌%◌}
use tfm_demo.AuditLog.Buffer.{Bytes, copy_from, byte_of}

-- LOG_FIXED_FIELD_SIZE, LOG_MAC_SIZE, DUMMY_PARTITION_ID
abbrev pub log_fixed_field_size : ℕ
log_fixed_field_size = 20

abbrev pub log_mac_size : ℕ
log_mac_size = 4

abbrev pub dummy_partition_id : ℕ
dummy_partition_id = 1234

-- offsetof(struct log_hdr, size)
abbrev pub size_offset : ℕ
size_offset = 16

-- COMPUTE_LOG_ENTRY_SIZE, of uint32_t
abbrev pub compute_log_entry_size : ℕ → ℕ
compute_log_entry_size size = (log_fixed_field_size + size + log_mac_size) % 2 ^ 32

-- struct tfm_log_line: the size field, and the `size` bytes behind it.
pub record LogLine : Type 0 where
  pub size : ℕ
  pub body : Bytes

-- The line as the bytes in memory.
abbrev pub line_bytes : LogLine → Bytes
line_bytes l k = if ltb k 4 then byte_of l.size k else l.body (k - 4)

-- *(T *)&b[at] = v for a type of `n` bytes
abbrev pub store_le : ℕ → ℕ → ℕ → Bytes → Bytes
store_le at n v = copy_from at (byte_of v) 0 n

-- The header fields in front of the size.
abbrev pub stamped : ℕ → Bytes → Bytes
stamped timestamp scratch = store_le 0 8 timestamp scratch

abbrev pub headed : ℕ → Bytes → Bytes
headed timestamp scratch =
    store_le 12 4 dummy_partition_id (store_le 8 4 0 (stamped timestamp scratch))

abbrev pub filled : ℕ → LogLine → Bytes → Bytes
filled timestamp line scratch =
    copy_from size_offset (line_bytes line) 0 (line.size + 4) (headed timestamp scratch)

unfoldable pub log_format_buffer : ℕ → LogLine → Bytes → Bytes
log_format_buffer timestamp line scratch =
    copy_from (log_fixed_field_size + line.size) (λ idx. idx) 0 log_mac_size
      (filled timestamp line scratch)
