-- ===== src/Client/RouteLaws.antt =====
-- What a client asked for is what the storage partition is asked.
use tfm_demo.Prelude.{ℕ, ◌<◌, ◌≡◌, word}
use tfm_demo.AuditLog.Buffer.{Bytes}
use tfm_demo.Manager.Access.{to_sst_buf}
use tfm_demo.Manager.Serve.{get_info, get_attributes, set_attributes, read, write, create, delete}
use tfm_demo.Client.Api.{
  Call, sst_create, sst_delete, sst_get_info, sst_get_attributes, sst_set_attributes, sst_read,
  sst_write, log_retrieve, log_get_info, log_delete_items, Locals,
}
use tfm_demo.Client.Route.{Target, storage, log_stub, sst_ns_policy_table, sst_get_cur_id}
use Prim.Native.String.{String}
use tfm_demo.Client.Packing.{vector_of, IsTokenAt}

-- The request that a call means, and the vector it is given.
abbrev pub IsMeant : ℕ → Locals → Bytes → Call → Target → Type 0
IsMeant app_id l ram (sst_create uuid) t = t ≡ storage app_id uuid create
IsMeant app_id l ram (sst_delete uuid) t = t ≡ storage app_id uuid delete
IsMeant app_id l ram (sst_get_info uuid info) t = t ≡ storage app_id uuid (get_info info)
IsMeant app_id l ram (sst_get_attributes uuid attrs) t =
    t ≡ storage app_id uuid (get_attributes attrs)
IsMeant app_id l ram (sst_set_attributes uuid attrs) t =
    t ≡ storage app_id uuid (set_attributes attrs)
IsMeant app_id l ram (sst_read uuid size offset address) t =
    (src : ℕ) × (t ≡ storage app_id uuid (read src))
    × (size < word
        → offset < word
        → address < word
        → to_sst_buf ram src ≡ vector_of size offset address)
IsMeant app_id l ram (sst_write uuid size offset address) t =
    (src : ℕ) × (t ≡ storage app_id uuid (write src))
    × (size < word
        → offset < word
        → address < word
        → to_sst_buf ram src ≡ vector_of size offset address)
IsMeant app_id l ram (log_retrieve size start buffer info) t = t ≡ log_stub
IsMeant app_id l ram (log_get_info info) t = t ≡ log_stub
IsMeant app_id l ram (log_delete_items num_items rem_items) t = t ≡ log_stub

-- A function of the storage is called with the address of such a structure; one of the log has no token.
abbrev pub HasToken : ℕ → ℕ → Bytes → Call → ℕ → Type 0
HasToken token token_size ram (log_retrieve size start buffer info) arg = Unit
HasToken token token_size ram (log_get_info info) arg = Unit
HasToken token token_size ram (log_delete_items num_items rem_items) arg = Unit
HasToken token token_size ram (sst_create uuid) arg = IsTokenAt token token_size ram arg
HasToken token token_size ram (sst_delete uuid) arg = IsTokenAt token token_size ram arg
HasToken token token_size ram (sst_get_info uuid info) arg = IsTokenAt token token_size ram arg
HasToken token token_size ram (sst_get_attributes uuid attrs) arg =
    IsTokenAt token token_size ram arg
HasToken token token_size ram (sst_set_attributes uuid attrs) arg =
    IsTokenAt token token_size ram arg
HasToken token token_size ram (sst_read uuid size offset address) arg =
    IsTokenAt token token_size ram arg
HasToken token token_size ram (sst_write uuid size offset address) arg =
    IsTokenAt token token_size ram arg

module _ (thread : String) (token token_size : ℕ) (l : Locals) (ram : Bytes) where
  abbrev pub app_id : ℕ
  app_id = sst_get_cur_id sst_ns_policy_table thread
