-- ===== src/Store/Commit.antt =====
-- Making the scratch metadata block the active one: sst_core.c.
use tfm_demo.Prelude.{ℕ, ◌+◌, ◌%◌, if◌then◌else◌, ltb}
use tfm_demo.AuditLog.Buffer.{Bytes}
use tfm_demo.Store.Layout.{total_num_of_blocks, swap_count_offset, logical_dblock0}
use tfm_demo.Store.Effects.{Action, Header, gets, modify, when, ◌>>=◌, ◌>>◌}
use tfm_demo.Store.Flash.{Driver, write, erase_block}
use tfm_demo.Store.Meta.{of_header}
use tfm_demo.Store.Validate.{validate_swap_count, succeeded}
use tfm_demo.Store.Tables.{cur_meta_scratch, cur_data_scratch, swap_metablocks, on_header}

-- The swap count after `count`; the value of an erased byte is left out.
unfoldable pub next_swap_count : ℕ → ℕ
next_swap_count count =
    let next = (count + 1) % 256 in if succeeded (validate_swap_count next) then next else 0

abbrev pub count_up : Header → Header
count_up h = record h { active_swap_count = next_swap_count h.active_swap_count }

-- &sst_system_ctx.meta_block_header.active_swap_count
abbrev pub swap_count_byte : Header → Bytes
swap_count_byte h k = h.active_swap_count % 256

module _ (d : Driver) where
  unfoldable pub meta_write_scratch_meta_header : Action (Unit {0})
  meta_write_scratch_meta_header = do
    scratch_metablock ← gets cur_meta_scratch
    modify (on_header count_up)
    header ← gets λ s. s.meta_block_header
    write d scratch_metablock (of_header header) 0 swap_count_offset
    write d scratch_metablock (swap_count_byte header) swap_count_offset 1

  unfoldable pub meta_erase_scratch_blocks : Action (Unit {0})
  meta_erase_scratch_blocks = do
    scratch_metablock ← gets cur_meta_scratch
    erase_block d scratch_metablock
    scratch_datablock ← gets (cur_data_scratch (logical_dblock0 + 1))
    when (ltb 2 total_num_of_blocks) (erase_block d scratch_datablock)

  unfoldable pub meta_update_finalize : Action (Unit {0})
  meta_update_finalize = do
    meta_write_scratch_meta_header
    modify swap_metablocks
    meta_erase_scratch_blocks
