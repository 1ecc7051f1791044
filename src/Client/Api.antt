-- ===== src/Client/Api.antt =====
-- The client functions psa_sst_* and tfm_log_*, tfm_sst_api.c and tfm_log_api.c: each packs its
-- arguments and has tfm_ns_lock_svc_dispatch issue an SVC.
use tfm_demo.Prelude.{ℕ, ◌+◌}
use tfm_demo.AuditLog.Buffer.{Bytes}
use tfm_demo.Store.Objects.{store32}

-- enum tfm_svc_num
abbrev pub svc_tfm_sst_create : ℕ
svc_tfm_sst_create = 1

abbrev pub svc_tfm_sst_get_info : ℕ
svc_tfm_sst_get_info = 2

abbrev pub svc_tfm_sst_get_attributes : ℕ
svc_tfm_sst_get_attributes = 3

abbrev pub svc_tfm_sst_set_attributes : ℕ
svc_tfm_sst_set_attributes = 4

abbrev pub svc_tfm_sst_read : ℕ
svc_tfm_sst_read = 5

abbrev pub svc_tfm_sst_write : ℕ
svc_tfm_sst_write = 6

abbrev pub svc_tfm_sst_delete : ℕ
svc_tfm_sst_delete = 7

abbrev pub svc_tfm_log_retrieve : ℕ
svc_tfm_log_retrieve = 8

abbrev pub svc_tfm_log_get_info : ℕ
svc_tfm_log_get_info = 9

abbrev pub svc_tfm_log_delete_items : ℕ
svc_tfm_log_delete_items = 10

-- The functions of psa_sst_api.h, without the token, and of tfm_log_api.h.
pub data Call : Type 0 where
  sst_create sst_delete : ℕ → Call
  sst_get_info sst_get_attributes sst_set_attributes : ℕ → ℕ → Call
  sst_read sst_write : ℕ → ℕ → ℕ → ℕ → Call
  log_retrieve : ℕ → ℕ → ℕ → ℕ → Call
  log_get_info : ℕ → Call
  log_delete_items : ℕ → ℕ → Call

-- The arguments of tfm_ns_lock_svc_dispatch.
pub record SvcArgs : Type 0 where
  pub svc_num : ℕ
  pub arg0 : ℕ
  pub arg1 : ℕ
  pub arg2 : ℕ
  pub arg3 : ℕ

-- The addresses of the locals s_token and s_data on the stack of the caller.
pub record Locals : Type 0 where
  pub s_token : ℕ
  pub s_data : ℕ

-- s_token.token = token; s_token.token_size = token_size;
unfoldable pub pack_token : ℕ → ℕ → ℕ → Bytes → Bytes
pack_token s_token token token_size b = store32 (store32 b s_token token) (s_token + 4) token_size

-- s_data.size = size; s_data.offset = offset; s_data.data = data;
unfoldable pub pack_data : ℕ → ℕ → ℕ → ℕ → Bytes → Bytes
pack_data s_data size offset address b =
    store32 (store32 (store32 b (s_data + 4) size) (s_data + 8) offset) s_data address

module _ (l : Locals) where
  -- What the function passes to the dispatcher.
  unfoldable pub svc_args : Call → SvcArgs
  svc_args (sst_create uuid) = record {
    svc_num = svc_tfm_sst_create;
    arg0 = uuid;
    arg1 = l.s_token;
    arg2 = 0;
    arg3 = 0;
  }
  svc_args (sst_get_info uuid info) = record {
    svc_num = svc_tfm_sst_get_info;
    arg0 = uuid;
    arg1 = l.s_token;
    arg2 = info;
    arg3 = 0;
  }
  svc_args (sst_get_attributes uuid attrs) = record {
    svc_num = svc_tfm_sst_get_attributes;
    arg0 = uuid;
    arg1 = l.s_token;
    arg2 = attrs;
    arg3 = 0;
  }
  svc_args (sst_set_attributes uuid attrs) = record {
    svc_num = svc_tfm_sst_set_attributes;
    arg0 = uuid;
    arg1 = l.s_token;
    arg2 = attrs;
    arg3 = 0;
  }
  svc_args (sst_read uuid size offset address) = record {
    svc_num = svc_tfm_sst_read;
    arg0 = uuid;
    arg1 = l.s_token;
    arg2 = l.s_data;
    arg3 = 0;
  }
  svc_args (sst_write uuid size offset address) = record {
    svc_num = svc_tfm_sst_write;
    arg0 = uuid;
    arg1 = l.s_token;
    arg2 = l.s_data;
    arg3 = 0;
  }
  svc_args (sst_delete uuid) = record {
    svc_num = svc_tfm_sst_delete;
    arg0 = uuid;
    arg1 = l.s_token;
    arg2 = 0;
    arg3 = 0;
  }
  svc_args (log_retrieve size start buffer info) = record {
    svc_num = svc_tfm_log_retrieve;
    arg0 = size;
    arg1 = start;
    arg2 = buffer;
    arg3 = info;
  }
  svc_args (log_get_info info) = record {
    svc_num = svc_tfm_log_get_info;
    arg0 = info;
    arg1 = 0;
    arg2 = 0;
    arg3 = 0;
  }
  svc_args (log_delete_items num_items rem_items) = record {
    svc_num = svc_tfm_log_delete_items;
    arg0 = num_items;
    arg1 = rem_items;
    arg2 = 0;
    arg3 = 0;
  }

  -- What it has written on its stack before; the functions of the log write nothing.
  unfoldable pub packed : ℕ → ℕ → Call → Bytes → Bytes
  unfolding pack_token pack_data
  packed token token_size (sst_read uuid size offset address) b =
      pack_data l.s_data size offset address (pack_token l.s_token token token_size b)
  packed token token_size (sst_write uuid size offset address) b =
      pack_data l.s_data size offset address (pack_token l.s_token token token_size b)
  packed token token_size (sst_create uuid) b = pack_token l.s_token token token_size b
  packed token token_size (sst_delete uuid) b = pack_token l.s_token token token_size b
  packed token token_size (sst_get_info uuid info) b = pack_token l.s_token token token_size b
  packed token token_size (sst_get_attributes uuid attrs) b =
      pack_token l.s_token token token_size b
  packed token token_size (sst_set_attributes uuid attrs) b =
      pack_token l.s_token token token_size b
  packed token token_size (log_retrieve size start buffer info) b = b
  packed token token_size (log_get_info info) b = b
  packed token token_size (log_delete_items num_items rem_items) b = b
