-- ===== src/AuditLog/Retrieve.antt =====
-- `log_core_retrieve` of log_core.c. Its two loops run on fuel, and `none` is fuel that ran out: a
-- loop goes on for as long as the size fields it reads in the ring make it.
use tfm_demo.Prelude.{
  ℕ, zero, suc, ◌+◌, ◌-◌, ◌%◌, Option, none, some, ltb, leb, ◌==◌, if◌then◌else◌, add32, sub32,
  word,
}
use tfm_demo.AuditLog.Buffer.{Bytes, log_size, copy_from}
use tfm_demo.AuditLog.Log.{LogErr, Log, LogInfo, entry_size, get_next_log_index, skip_items}

-- TFM_LOG_READ_RECENT, -1 as the unsigned number that it is compared as
abbrev pub log_read_recent : ℕ
log_read_recent = word - 1

-- The status, `*info` and the caller's buffer.
pub record Retrieved : Type 0 where
  pub err : LogErr
  pub info : LogInfo
  pub buffer : Bytes

-- The variables of the loops: where to read from, and how many bytes and items.
pub record Span : Type 0 where
  pub start_idx : ℕ
  pub num_items : ℕ
  pub stored_size : ℕ
  pub retrieved_log_size : ℕ

abbrev pub smaller : ℕ → ℕ → ℕ
smaller a b = if ltb a b then a else b

-- A round of the loop that drops old items; `end` is `index_first_empty_el`.
unfoldable pub drop_first : Bytes → ℕ → Span → Span
drop_first b end v =
    let start = get_next_log_index b v.start_idx in
    let stored = if leb start end then end - start else (log_size - start) + end in
    record {
      start_idx = start;
      num_items = sub32 v.num_items 1;
      stored_size = stored;
      retrieved_log_size = smaller stored v.retrieved_log_size;
    }

unfoldable pub recent_loop : Bytes → ℕ → ℕ → Span → Option Span
recent_loop b end zero v = if ltb v.retrieved_log_size v.stored_size then none else some v
recent_loop b end (suc fuel) v =
    let rest = recent_loop b end fuel (drop_first b end v) in
    if ltb v.retrieved_log_size v.stored_size then rest else some v

-- The loop that counts the items that fit from `idx` on.
unfoldable pub fit_loop : Bytes → ℕ → ℕ → Span → Option Span
fit_loop b idx zero v =
    if leb (add32 v.stored_size (entry_size b idx)) v.retrieved_log_size then none else some v
fit_loop b idx (suc fuel) v =
    let rest = fit_loop b (get_next_log_index b idx) fuel (record v {
      stored_size = add32 v.stored_size (entry_size b idx);
      num_items = add32 v.num_items 1;
    }) in
    if leb (add32 v.stored_size (entry_size b idx)) v.retrieved_log_size then rest else some v

abbrev pub nothing_read : LogErr → Bytes → Option Retrieved
nothing_read err buffer =
    some (record { err = err; info = record { size = 0; num_items = 0 }; buffer = buffer })

-- The copy into the caller's buffer.
unfoldable pub copy_span : Bytes → Bytes → ℕ → ℕ → ℕ → Option Retrieved
copy_span b buffer start_idx size num_items = some (record {
  err = LogErr.success;
  info = record { size = size; num_items = num_items };
  buffer = copy_from 0 (λ idx. b ((start_idx + idx) % log_size)) 0 size buffer;
})

unfoldable pub finish_recent : Bytes → Bytes → Option Span → Option Retrieved
finish_recent b buffer none = none
finish_recent b buffer (some v) =
    if v.stored_size == 0
    then nothing_read LogErr.success buffer
    else copy_span b buffer v.start_idx v.retrieved_log_size v.num_items

unfoldable pub finish_from : Bytes → Bytes → Option Span → Option Retrieved
finish_from b buffer none = none
finish_from b buffer (some v) = copy_span b buffer v.start_idx v.stored_size v.num_items

-- From the `start`-th item on, at index `idx`.
unfoldable pub retrieve_from : ℕ → ℕ → ℕ → Bytes → Bytes → Option Retrieved
retrieve_from fuel retrieved idx buffer b =
    if ltb retrieved (entry_size b idx)
    then nothing_read LogErr.success buffer
    else finish_from b buffer (
        fit_loop b (get_next_log_index b idx) fuel (record {
          start_idx = idx;
          num_items = 1;
          stored_size = entry_size b idx;
          retrieved_log_size = retrieved;
        }))

unfoldable pub log_core_retrieve : ℕ → ℕ → ℕ → Bytes → Log → Option Retrieved
log_core_retrieve fuel size start buffer l =
    if size == 0
    then nothing_read LogErr.failure buffer
    else if l.state.num_items == 0
    then nothing_read LogErr.success buffer
    else if start == log_read_recent
    then finish_recent l.buffer buffer (
        recent_loop l.buffer (get_next_log_index l.buffer l.state.last_el_idx) fuel (record {
          start_idx = l.state.first_el_idx;
          num_items = l.state.num_items;
          stored_size = l.state.stored_size;
          retrieved_log_size = smaller size l.state.stored_size;
        }))
    else if ltb start l.state.num_items
    then retrieve_from fuel (smaller size l.state.stored_size)
        (skip_items l.buffer start l.state.first_el_idx) buffer l.buffer
    else nothing_read LogErr.failure buffer
