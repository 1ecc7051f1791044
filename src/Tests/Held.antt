-- ===== src/Tests/Held.antt =====
-- A file system with an object of id 7 in block 0, at entry 0, and the theorems on writing into it.
use tfm_demo.Prelude.{ℕ, ◌+◌, ◌-◌, ◌<◌, ◌≡◌, ltb, leb, ◌&&◌, if◌then◌else◌, refl, arith}
use tfm_demo.AuditLog.Buffer.{Bytes}
use tfm_demo.Store.Layout.{
  block_size, all_metadata_size, flash_default_val, flash_area_addr, object_meta_offset,
  block_meta_offset,
}
use tfm_demo.Store.Effects.{Storage, continue}
use tfm_demo.Store.Meta.{BlockMetadata, AssetMeta, of_header, of_block_metadata, of_assetmeta}
use tfm_demo.Store.Write.{object_write}
use tfm_demo.Store.Read.{object_read}
use tfm_demo.Store.Ends.{Ends}
use tfm_demo.Store.Staged.{active_of, object_entry}
use tfm_demo.Store.Ready.{IsReady}
use tfm_demo.Store.EntryReads.{IsFirst}
use tfm_demo.Store.Composed.{CanHold}
use tfm_demo.Store.WriteLaws.{WhyNot}
use tfm_demo.Store.ObjectWrite.{IsObjectWritten, NeverTorn, object_write-IsObjectWritten}
use tfm_demo.Store.ReadBack.{object_read-object_write}
use tfm_demo.Tests.Flash.{perfect, flash_with-IsFlash, fresh, fresh_tables}

abbrev held : AssetMeta
held = record {
  lblock = 0;
  data_index = all_metadata_size;
  cur_size = 10;
  max_size = 64;
  unique_id = 7;
}

abbrev block0 : BlockMetadata
block0 = record {
  phys_id = 0;
  data_start = all_metadata_size;
  free_size = block_size - all_metadata_size - 64;
}

unfoldable held_tables : Bytes
held_tables o =
    if leb (object_meta_offset 0) o && ltb o (object_meta_offset 1)
    then of_assetmeta held (o - object_meta_offset 0)
    else if leb (block_meta_offset 0) o && ltb o (block_meta_offset 1)
    then of_block_metadata block0 (o - block_meta_offset 0)
    else fresh_tables o

abbrev holding : Storage
holding = record fresh {
  flash = λ x.
      if ltb x (flash_area_addr + block_size)
      then held_tables (x - flash_area_addr)
      else flash_default_val;
}

holding-IsReady : IsReady holding
unfolding held_tables fresh_tables of_header of_block_metadata of_assetmeta
holding-IsReady = record {
  apart = refl;
  block0 = omega arith;
  erased = λ o l. ground arith;
  scratch_lo = omega arith;
  scratch_hi = omega arith;
  version = refl;
  count = omega arith;
  flash_version = refl;
  flash_scratch = refl;
  flash_count = refl;
}

holding-IsFirst : IsFirst holding 7 0
unfolding held_tables of_assetmeta
holding-IsFirst = (omega arith, refl, λ j l. absurd (omega (arith, l)))

-- 20 bytes at offset 10, behind the bytes that are there.
holding-CanHold : CanHold holding (object_entry (active_of holding) 0) (10 + 20)
unfolding held_tables of_assetmeta of_block_metadata
holding-CanHold = record {
  own = refl;
  start = refl;
  zeroth = refl;
  lo = omega arith;
  hi = omega arith;
  fits = omega arith;
  room = omega arith;
}

abbrev content : Bytes
content k = k + 1

object_write-IsObjectWritten_example :
    Ends
      (object_write perfect 7 content 10 20 holding)
      (λ _.
        IsObjectWritten perfect
          (flash_with-IsFlash _)
          holding
          holding-IsReady
          7
          0
          10
          20
          content
          holding-IsFirst
          holding-CanHold)
      (λ now.
        NeverTorn perfect
          (flash_with-IsFlash _)
          holding
          holding-IsReady
          7
          0
          10
          20
          content
          holding-IsFirst
          holding-CanHold
          now
        × WhyNot perfect holding 0 10)
object_write-IsObjectWritten_example =
    object_write-IsObjectWritten perfect (flash_with-IsFlash _) holding holding-IsReady 7 0 10 20
      content holding-IsFirst holding-CanHold

object_read-object_write_example :
    Ends
      (continue (object_write perfect 7 content 10 20 holding) λ _. object_read perfect 7 10 20)
      (λ b s. (k : ℕ) → k < 20 → b k ≡ content k)
      (λ s. WhyNot perfect holding 0 10)
object_read-object_write_example =
    object_read-object_write perfect (flash_with-IsFlash _) holding holding-IsReady 7 0 10 20
      content holding-IsFirst holding-CanHold (omega arith) (omega arith)
