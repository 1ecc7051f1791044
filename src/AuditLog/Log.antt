-- ===== src/AuditLog/Log.antt =====
-- The state of the log and its operations. An operation returns its status, what it writes through
-- its pointers, and the new state.
use tfm_demo.Prelude.{
  ℕ, zero, suc, ◌+◌, ◌-◌, ◌%◌, ◌^◌, Option, none, some, Bool, not, ◌||◌, ltb, leb, ◌==◌,
  if◌then◌else◌, sub32, add32,
}
use tfm_demo.AuditLog.Buffer.{Bytes, log_size, ring_copy, read32}
use tfm_demo.AuditLog.Item.{
  LogLine, size_offset, log_fixed_field_size, log_mac_size, compute_log_entry_size,
  log_format_buffer,
}

pub data LogErr : Type 0 where
  success failure : LogErr

-- struct log_vars
pub record LogVars : Type 0 where
  pub first_el_idx : ℕ
  pub last_el_idx : ℕ
  pub num_items : ℕ
  pub stored_size : ℕ

-- `log_state`, `log_buffer`, `scratch_buffer` and `global_timestamp`
pub record Log : Type 0 where
  pub state : LogVars
  pub buffer : Bytes
  pub scratch : Bytes
  pub global_timestamp : ℕ

-- struct tfm_log_info
pub record LogInfo : Type 0 where
  pub size : ℕ
  pub num_items : ℕ

-- *GET_SIZE_FIELD_POINTER(idx)
unfoldable pub get_size_field : Bytes → ℕ → ℕ
get_size_field b idx = read32 b ((idx + size_offset) % log_size)

unfoldable pub entry_size : Bytes → ℕ → ℕ
entry_size b idx = compute_log_entry_size (get_size_field b idx)

unfoldable pub get_next_log_index : Bytes → ℕ → ℕ
get_next_log_index b idx = add32 idx (entry_size b idx) % log_size

abbrev pub cleared : LogVars
cleared = record { first_el_idx = 0; last_el_idx = 0; num_items = 0; stored_size = 0 }

unfoldable pub log_core_init : Log → LogErr × Log
log_core_init l = (LogErr.success, record l { state = cleared })

unfoldable pub log_core_get_info : Log → LogInfo
log_core_get_info l = record { size = l.state.stored_size; num_items = l.state.num_items }

-- The loop of `log_replace_item`, on the number of items left.
unfoldable pub replace_loop : Bytes → ℕ → ℕ → ℕ → ℕ → ℕ → LogVars
replace_loop b size last zero first stored =
    if ltb (sub32 log_size stored) size
    then cleared
    else record { first_el_idx = first; last_el_idx = last; num_items = 0; stored_size = stored }
replace_loop b size last (suc n) first stored =
    let rest =
      replace_loop b size last n (get_next_log_index b first) (sub32 stored (entry_size b first)) in
    if ltb (sub32 log_size stored) size then rest else record {
      first_el_idx = first;
      last_el_idx = last;
      num_items = suc n;
      stored_size = stored;
    }

-- `*begin`; the index `*end` is not read by any caller.
unfoldable pub begin_pos : Bytes → LogVars → ℕ
begin_pos b v = if v.num_items == 0 then v.first_el_idx else get_next_log_index b v.last_el_idx

unfoldable pub log_replace_item : Bytes → ℕ → LogVars → LogVars
log_replace_item b size v =
    replace_loop b size v.last_el_idx v.num_items v.first_el_idx v.stored_size

-- `log_buffer_copy`: what does not fit is refused, and the caller ignores that.
unfoldable pub log_buffer_copy : ℕ → Bytes → ℕ → Bytes → Bytes
log_buffer_copy dest_idx src size b =
    if leb log_size dest_idx || ltb log_size size then b else ring_copy dest_idx src 0 size b

-- The addition once the position `start` and the state `v` are settled.
unfoldable pub add_at : Log → LogLine → ℕ → LogVars → LogErr × Log
add_at l line start v =
    let item = log_format_buffer l.global_timestamp line l.scratch in
    (
      LogErr.success,
      record {
        state = record {
          first_el_idx = v.first_el_idx;
          last_el_idx = start;
          num_items = add32 v.num_items 1;
          stored_size = add32 v.stored_size (compute_log_entry_size line.size);
        };
        buffer = log_buffer_copy start item (compute_log_entry_size line.size) l.buffer;
        scratch = item;
        global_timestamp = (l.global_timestamp + 1) % 2 ^ 64;
      },
    )

-- `secure` is whether `tfm_core_validate_secure_caller` reports a secure caller.
unfoldable pub log_core_add_line : Bool → LogLine → Log → LogErr × Log
log_core_add_line secure line l =
    if not secure
    then (LogErr.failure, l)
    else if not (line.size % 4 == 0)
    then (LogErr.failure, l)
    else if ltb (log_size - (log_fixed_field_size + log_mac_size)) line.size
    then (LogErr.failure, l)
    else if l.state.num_items == 0
    then add_at l line 0 l.state
    else add_at l line
        (begin_pos l.buffer (log_replace_item l.buffer (compute_log_entry_size line.size) l.state))
        (log_replace_item l.buffer (compute_log_entry_size line.size) l.state)

-- `rounds` steps to the next item
unfoldable pub skip_items : Bytes → ℕ → ℕ → ℕ
skip_items b zero idx = idx
skip_items b (suc rounds) idx = skip_items b rounds (get_next_log_index b idx)

-- The status and `*rem_items`; `ptr` is whether `rem_items` is not NULL.
unfoldable pub log_core_delete_items : Bool → ℕ → Log → LogErr × Option ℕ × Log
log_core_delete_items ptr num_items l =
    if not ptr
    then (LogErr.failure, none, l)
    else if leb l.state.num_items num_items
    then (LogErr.success, some l.state.num_items, record l { state = cleared })
    else (
      LogErr.success,
      some num_items,
      record l {
        state = record l.state {
          first_el_idx = skip_items l.buffer num_items l.state.first_el_idx;
          num_items = l.state.num_items - num_items;
        };
      },
    )
