-- ===== src/Store/Prepare.antt =====
-- sst_core_prepare: the choice of the active metadata block.
use tfm_demo.Prelude.{ℕ, Option, none, some, if◌then◌else◌}
use tfm_demo.Sst.Utils.{SstErr}
use tfm_demo.Store.Layout.{metadata_block0, metadata_block1, header_size, other_meta_block}
use tfm_demo.Store.Effects.{Storage, Action, Header, fail, gets, modify, as_error, ◌>>=◌, ◌>>◌}
use tfm_demo.Store.Flash.{Driver, read}
use tfm_demo.Store.Meta.{to_header}
use tfm_demo.Store.Validate.{latest_meta_block, validate_header_meta, succeeded}
use tfm_demo.Store.Tables.{on_header, cur_meta_active, check}
use tfm_demo.Store.Commit.{meta_erase_scratch_blocks}

-- The block in use according to the two headers.
unfoldable pub choose_meta_block : Header → Header → Option ℕ
choose_meta_block meta0 meta1 =
    let valid0 = succeeded (validate_header_meta meta0) in
    let valid1 = succeeded (validate_header_meta meta1) in
    if valid0
    then if valid1 then some (latest_meta_block meta0 meta1) else some metadata_block0
    else if valid1
    then some metadata_block1
    else none

abbrev use_meta_block : ℕ → Storage → Storage
use_meta_block cur s = record s { active_metablock = cur; scratch_metablock = other_meta_block cur }

module _ (d : Driver) where
  unfoldable pub init_get_active_metablock : Action (Unit {0})
  init_get_active_metablock = do
    meta0 ← as_error SstErr.system_error (read d metadata_block0 0 header_size)
    meta1 ← as_error SstErr.system_error (read d metadata_block1 0 header_size)
    elim (choose_meta_block (to_header meta0) (to_header meta1)) [
      | none ↦ fail SstErr.system_error
      | some cur ↦ modify (use_meta_block cur)
    ]

  unfoldable pub meta_read_meta_header : Action (Unit {0})
  meta_read_meta_header = do
    metablock ← gets cur_meta_active
    b ← read d metablock 0 header_size
    modify (on_header λ _. to_header b)
    check (validate_header_meta (to_header b))

  unfoldable pub core_prepare : Action (Unit {0})
  core_prepare = do
    as_error SstErr.system_error init_get_active_metablock
    as_error SstErr.system_error meta_read_meta_header
    meta_erase_scratch_blocks d
