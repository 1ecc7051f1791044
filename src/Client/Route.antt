-- ===== src/Client/Route.antt =====
-- From the SVC to the secure function: the handlers of tfm_sst_svc_handler.c and tfm_log_svc_handler.c,
-- the application ids of tfm_id_mngr_dummy.c, and the veneers of tfm_sst_veneers.c and
-- tfm_log_veneers.c.
use tfm_demo.Prelude.{ℕ, ◌==◌, if◌then◌else◌, List, [], ◌∷◌}
use Prim.Native.String.{String}
use text.Mathlib.Text.{◌==◌ as str_eq}
use tfm_demo.Manager.Serve.{
  Request, get_info, get_attributes, set_attributes, read, write, create, delete,
}
use tfm_demo.Client.Api.{
  SvcArgs, svc_tfm_sst_create, svc_tfm_sst_get_info, svc_tfm_sst_get_attributes,
  svc_tfm_sst_set_attributes, svc_tfm_sst_read, svc_tfm_sst_write, svc_tfm_sst_delete,
  svc_tfm_log_retrieve, svc_tfm_log_get_info, svc_tfm_log_delete_items,
}

-- struct thread_sst_appid_pair
pub record ThreadAppId : Type 0 where
  pub t_name : String
  pub app_id : ℕ

abbrev pub invalid_app_id : ℕ
invalid_app_id = 0

abbrev pub sst_ns_policy_table : List ThreadAppId
sst_ns_policy_table =
    record { t_name = "Thread_A"; app_id = 9 }
    ∷ record { t_name = "Thread_B"; app_id = 10 }
    ∷ record { t_name = "Thread_C"; app_id = 11 }
    ∷ record { t_name = "Thread_D"; app_id = 12 }
    ∷ []

-- The loop of `tfm_sst_get_cur_id`, for the name that the RTOS gives the active thread.
unfoldable pub sst_get_cur_id : List ThreadAppId → String → ℕ
sst_get_cur_id [] thread_name = invalid_app_id
sst_get_cur_id (e ∷ rest) thread_name =
    if str_eq e.t_name thread_name then e.app_id else sst_get_cur_id rest thread_name

-- Where a call ends up: in a function of the storage partition, in a veneer of the log, which
-- returns TFM_LOG_ERR_SUCCESS at once, or nowhere.
pub data Target : Type 0 where
  storage : ℕ → ℕ → Request → Target
  log_stub : Target
  no_handler : Target

-- The handler of LIST_SVC_DISPATCHERS for the active thread, with the veneer that it calls.
unfoldable pub route : String → SvcArgs → Target
unfolding sst_get_cur_id
route thread_name a =
    let app_id = sst_get_cur_id sst_ns_policy_table thread_name in
    if a.svc_num == svc_tfm_sst_create
    then storage app_id a.arg0 create
    else if a.svc_num == svc_tfm_sst_get_info
    then storage app_id a.arg0 (get_info a.arg2)
    else if a.svc_num == svc_tfm_sst_get_attributes
    then storage app_id a.arg0 (get_attributes a.arg2)
    else if a.svc_num == svc_tfm_sst_set_attributes
    then storage app_id a.arg0 (set_attributes a.arg2)
    else if a.svc_num == svc_tfm_sst_read
    then storage app_id a.arg0 (read a.arg2)
    else if a.svc_num == svc_tfm_sst_write
    then storage app_id a.arg0 (write a.arg2)
    else if a.svc_num == svc_tfm_sst_delete
    then storage app_id a.arg0 delete
    else if a.svc_num == svc_tfm_log_retrieve
    then log_stub
    else if a.svc_num == svc_tfm_log_get_info
    then log_stub
    else if a.svc_num == svc_tfm_log_delete_items
    then log_stub
    else no_handler
