-- ===== src/Store/Objects.antt =====
-- sst_object_system.c: objects with a header, over the flash file system.
use tfm_demo.Prelude.{ℕ, true, Option, none, some, ◌+◌, ◌-◌, leb, ltb, ◌&&◌, if◌then◌else◌, add32}
use tfm_demo.AuditLog.Buffer.{Bytes, copy_from, byte_of}
use tfm_demo.Sst.Utils.{SstErr, check_contained_in}
use tfm_demo.Store.Layout.{object_header_size, max_object_size}
use tfm_demo.Store.Effects.{Storage, Action, pure, fail, gets, modify, attempt, when, ◌>>=◌, ◌>>◌}
use tfm_demo.Store.Flash.{Driver}
use tfm_demo.Store.Meta.{u32_at}
use tfm_demo.Store.Tables.{object_exist, check}
use tfm_demo.Store.Create
use tfm_demo.Store.Write
use tfm_demo.Store.Delete
use tfm_demo.Store.Read
use tfm_demo.Store.Prepare.{core_prepare}
use tfm_demo.Store.Wipe.{core_wipe_all}

-- offsetof(struct sst_obj_header_t, …): uuid, version, info.type, info.size_current,
-- info.size_max, attr
abbrev pub version_offset : ℕ
version_offset = 4

abbrev pub info_offset : ℕ
info_offset = 8

abbrev pub size_current_offset : ℕ
size_current_offset = 12

abbrev pub size_max_offset : ℕ
size_max_offset = 16

abbrev pub attr_offset : ℕ
attr_offset = 24

-- PSA_SST_ASSET_ATTR_SIZE
abbrev pub asset_attr_size : ℕ
asset_attr_size = 24

-- struct psa_sst_asset_info_t
pub record AssetInfo : Type 0 where
  pub type : ℕ
  pub size_current : ℕ
  pub size_max : ℕ

-- *(uint32_t *)&b[offset] = v
abbrev pub store32 : Bytes → ℕ → ℕ → Bytes
store32 b offset v k = if leb offset k && ltb k (offset + 4) then byte_of v (k - offset) else b k

abbrev pub on_object : (Bytes → Bytes) → Storage → Storage
on_object f s = record s { object = f s.object }

abbrev pub size_current : Storage → ℕ
size_current s = u32_at s.object size_current_offset

-- sst_global_lock and sst_global_unlock do nothing.
abbrev pub global_lock : Action (Unit {0})
global_lock = pure tt

abbrev pub global_unlock : Action (Unit {0})
global_unlock = pure tt

-- if (sst_system_ready == SST_SYSTEM_READY) { … } return err;
unfoldable pub if_ready {ℓ} : {A : Type ℓ} → Action A → Action A
if_ready op s = (if s.system_ready then op else fail SstErr.system_error) s

unfoldable pub init_object : ℕ → ℕ → ℕ → Bytes → Bytes
init_object uuid type size b =
    let empty : Bytes = λ k. if ltb k max_object_size then 0 else b k in
    store32 (store32 (store32 (store32 empty 0 uuid) version_offset 0) size_max_offset size)
      info_offset type

abbrev info_from : Bytes → AssetInfo
info_from b = record {
  type = u32_at b info_offset;
  size_current = u32_at b size_current_offset;
  size_max = u32_at b size_max_offset;
}

module _ (d : Driver) where
  unfoldable pub system_prepare : Action (Unit {0})
  system_prepare = do
    global_lock
    core_prepare d
    modify λ s. record s { system_ready = true }
    global_unlock

  -- The object's header is read into `g_sst_object`.
  unfoldable pub read_header : ℕ → Action (Unit {0})
  read_header uuid = do
    b ← Read.object_read d uuid 0 object_header_size
    modify (on_object (copy_from 0 b 0 object_header_size))

  -- And its data, if any.
  unfoldable pub read_whole : ℕ → Action (Unit {0})
  read_whole uuid = do
    read_header uuid
    size ← gets size_current
    when (ltb 0 size) (do
      b ← Read.object_read d uuid object_header_size size
      modify (on_object (copy_from object_header_size b 0 size)))

  unfoldable pub system_read : ℕ → ℕ → ℕ → Action Bytes
  system_read uuid offset size = if_ready do
    global_lock
    read_whole uuid
    current ← gets size_current
    check (check_contained_in 0 current offset size)
    object ← gets λ s. s.object
    global_unlock
    pure λ k. object (object_header_size + offset + k)

  unfoldable pub create_new : ℕ → ℕ → ℕ → Option (Unit {0}) → Action (Unit {0})
  create_new uuid type size (some _) = pure tt
  create_new uuid type size none = do
    modify (on_object (init_object uuid type size))
    Create.object_create d uuid (add32 object_header_size size)
    object ← gets λ s. s.object
    Write.object_write d uuid object 0 object_header_size

  -- An object that exists is left alone, with success.
  unfoldable pub system_create : ℕ → ℕ → ℕ → Action (Unit {0})
  system_create uuid type size = if_ready do
    global_lock
    found ← attempt (object_exist d uuid)
    create_new uuid type size found
    global_unlock

  unfoldable pub system_write : ℕ → Bytes → ℕ → ℕ → Action (Unit {0})
  system_write uuid content offset size = if_ready do
    global_lock
    read_whole uuid
    current ← gets size_current
    when (ltb current offset) (fail SstErr.param_error)
    modify (on_object (copy_from (object_header_size + offset) content 0 size))
    let end = add32 offset size
    when (ltb current end) (modify (on_object λ b. store32 b size_current_offset end))
    object ← gets λ s. s.object
    new_current ← gets size_current
    Write.object_write d uuid object 0 (add32 object_header_size new_current)
    global_unlock

  unfoldable pub system_get_info : ℕ → Action AssetInfo
  system_get_info uuid = if_ready do
    global_lock
    read_header uuid
    object ← gets λ s. s.object
    global_unlock
    pure (info_from object)

  unfoldable pub system_get_attributes : ℕ → Action Bytes
  system_get_attributes uuid = if_ready do
    global_lock
    read_header uuid
    object ← gets λ s. s.object
    global_unlock
    pure λ k. object (attr_offset + k)

  unfoldable pub system_set_attributes : ℕ → Bytes → Action (Unit {0})
  system_set_attributes uuid attrs = if_ready do
    global_lock
    read_header uuid
    modify (on_object (copy_from attr_offset attrs 0 asset_attr_size))
    object ← gets λ s. s.object
    Write.object_write d uuid object 0 object_header_size
    global_unlock

  unfoldable pub system_delete : ℕ → Action (Unit {0})
  system_delete uuid = if_ready do global_lock; Delete.object_delete d uuid; global_unlock

  unfoldable pub system_wipe_all : Action (Unit {0})
  system_wipe_all = core_wipe_all d
