-- ===== src/Tests/Flash.antt =====
-- A flash that works or is cut off, and a file system with no object on it.
use tfm_demo.Prelude.{
  ℕ, zero, suc, ◌+◌, ◌-◌, ◌/◌, ◌==◌, ◌≤◌, ◌<◌, ◌≡◌, ◌⊎◌, ltb, leb, ◌&&◌, true, if◌then◌else◌, refl,
  arith, inl, inr,
}
use tfm_demo.AuditLog.Buffer.{Bytes}
use tfm_demo.Store.Layout.{
  block_size, header_size, all_metadata_size, num_assets, init_scratch_dblock, supported_version,
  flash_default_val, flash_area_addr, object_meta_offset, block_meta_offset,
}
use tfm_demo.Store.Effects.{Storage, Header}
use tfm_demo.Store.Flash.{Driver, IsFlash, Reply}
use tfm_demo.Store.Meta.{BlockMetadata, AssetMeta, of_header, of_block_metadata, of_assetmeta}
use tfm_demo.Store.Staged.{active_of, object_entry}
use tfm_demo.Store.Ready.{IsReady}

abbrev over : Bytes → ℕ → ℕ → Bytes → Bytes
over flash addr size b x = if leb addr x && ltb x (addr + size) then b (x - addr) else flash x

-- A request that is not answered ok has done half of its work.
abbrev written : Reply → Bytes → ℕ → ℕ → Bytes → Bytes
written Reply.ok flash addr size b = over flash addr size b
written Reply.error flash addr size b = over flash addr (size / 2) b
written Reply.cut_off flash addr size b = over flash addr (size / 2) b

-- A flash that answers request `t` by `reply t`.
abbrev pub flash_with : (ℕ → Reply) → Driver
flash_with reply = record {
  read_reply = λ t flash addr size. reply t;
  read_data = λ t flash addr size k. flash (addr + k);
  program_reply = λ t flash addr buff size. reply t;
  program_data = λ t flash addr buff size. written (reply t) flash addr size buff;
  erase_reply = λ t flash addr. reply t;
  erase_sector = λ t flash addr. written (reply t) flash addr block_size (λ k. flash_default_val);
}

same_place : (addr k : ℕ) → addr + k - addr ≡ k
same_place addr k = omega arith

over-inside :
    (flash b : Bytes) (addr size k : ℕ) → k < size → over flash addr size b (addr + k) ≡ b k
over-inside flash b addr size k l = ground (arith, same_place addr k)

over-outside :
    (flash b : Bytes) (addr size x : ℕ)
    → (x < addr) ⊎ (addr + size ≤ x)
    → over flash addr size b x ≡ flash x
over-outside flash b addr size x h = ground arith

written-inside :
    (r : Reply) (flash b : Bytes) (addr size k : ℕ)
    → r ≡ Reply.ok
    → k < size
    → written r flash addr size b (addr + k) ≡ b k
written-inside Reply.ok flash b addr size k e l = over-inside flash b addr size k l
written-inside Reply.error flash b addr size k e l = cc e
written-inside Reply.cut_off flash b addr size k e l = cc e

written-outside :
    (r : Reply) (flash b : Bytes) (addr size x : ℕ)
    → (x < addr) ⊎ (addr + size ≤ x)
    → written r flash addr size b x ≡ flash x
written-outside Reply.ok flash b addr size x h = over-outside flash b addr size x h
written-outside Reply.error flash b addr size x h =
    over-outside flash b addr (size / 2) x (nearer h)
  where
    nearer : (x < addr) ⊎ (addr + size ≤ x) → (x < addr) ⊎ (addr + size / 2 ≤ x)
    nearer (inl a) = inl a
    nearer (inr a) = inr (omega arith)
written-outside Reply.cut_off flash b addr size x h =
    over-outside flash b addr (size / 2) x (nearer h)
  where
    nearer : (x < addr) ⊎ (addr + size ≤ x) → (x < addr) ⊎ (addr + size / 2 ≤ x)
    nearer (inl a) = inl a
    nearer (inr a) = inr (omega arith)

pub flash_with-IsFlash : (reply : ℕ → Reply) → IsFlash (flash_with reply)
flash_with-IsFlash reply = record {
  reads = λ t flash addr size k e l. refl;
  programs = λ t flash addr buff size k e l h. written-inside (reply t) flash buff addr size k e l;
  programs_only = λ t flash addr buff size x h. written-outside (reply t) flash buff addr size x h;
  erases = λ t flash addr k e l.
      written-inside (reply t) flash (λ x. flash_default_val) addr block_size k e l;
  erases_only = λ t flash addr x h.
      written-outside (reply t) flash (λ x. flash_default_val) addr block_size x h;
}

-- It always works; the power fails at request `n`.
abbrev pub perfect : Driver
perfect = flash_with (λ t. Reply.ok)

abbrev pub until : ℕ → Driver
until n = flash_with (λ t. if t == n then Reply.cut_off else Reply.ok)

abbrev empty_block : ℕ → ℕ → BlockMetadata
empty_block phys_id start = record {
  phys_id = phys_id;
  data_start = start;
  free_size = block_size - start;
}

abbrev fresh_header : Header
fresh_header = record {
  crypto = λ k. 0;
  scratch_idx = init_scratch_dblock;
  fs_version = supported_version;
  active_swap_count = 1;
}

-- The metadata block of an empty file system.
unfoldable pub fresh_tables : Bytes
fresh_tables o =
    if ltb o header_size
    then of_header fresh_header o
    else if ltb o (block_meta_offset 1)
    then of_block_metadata (empty_block 0 all_metadata_size) (o - block_meta_offset 0)
    else if ltb o (block_meta_offset 2)
    then of_block_metadata (empty_block 3 0) (o - block_meta_offset 1)
    else if ltb o (object_meta_offset 0)
    then of_block_metadata (empty_block 4 0) (o - block_meta_offset 2)
    else 0

abbrev pub fresh : Storage
fresh = record {
  meta_block_header = fresh_header;
  active_metablock = 0;
  scratch_metablock = 1;
  buf_plain_text = λ k. 0;
  system_ready = true;
  object = λ k. 0;
  flash = λ x.
      if ltb x (flash_area_addr + block_size)
      then fresh_tables (x - flash_area_addr)
      else flash_default_val;
  requests = 0;
}

pub fresh-IsReady : IsReady fresh
unfolding fresh_tables of_header of_block_metadata
fresh-IsReady = record {
  apart = refl;
  block0 = omega arith;
  erased = λ o l. ground arith;
  scratch_lo = omega arith;
  scratch_hi = omega arith;
  version = refl;
  count = omega arith;
  flash_version = refl;
  flash_scratch = refl;
  flash_count = refl;
}

-- The same with an object of id 5 in block 1, at entry 0.
abbrev pub stored : AssetMeta
stored = record { lblock = 1; data_index = 0; cur_size = 10; max_size = 64; unique_id = 5 }

unfoldable pub occupied_tables : Bytes
occupied_tables o =
    if leb (object_meta_offset 0) o && ltb o (object_meta_offset 1)
    then of_assetmeta stored (o - object_meta_offset 0)
    else fresh_tables o

abbrev pub occupied : Storage
occupied = record fresh {
  flash = λ x.
      if ltb x (flash_area_addr + block_size)
      then occupied_tables (x - flash_area_addr)
      else flash_default_val;
}

pub occupied-IsReady : IsReady occupied
unfolding occupied_tables fresh_tables of_header of_block_metadata of_assetmeta
occupied-IsReady = record {
  apart = refl;
  block0 = omega arith;
  erased = λ o l. ground arith;
  scratch_lo = omega arith;
  scratch_hi = omega arith;
  version = refl;
  count = omega arith;
  flash_version = refl;
  flash_scratch = refl;
  flash_count = refl;
}

empty_behind : (o : ℕ) → object_meta_offset 1 ≤ o → o < block_size → active_of occupied o ≡ 0
unfolding occupied_tables fresh_tables
empty_behind o a b = ground arith

-- The other entries are free.
empty_entry : (k : ℕ) → 0 < k → k < num_assets → (object_entry (active_of occupied) k).unique_id ≡ 0
empty_entry k pos lt = omega (
  arith,
  byte 16 (omega arith),
  byte 17 (omega arith),
  byte 18 (omega arith),
  byte 19 (omega arith),
)
  where
    byte : (x : ℕ) → x < 20 → active_of occupied (object_meta_offset k + x) ≡ 0
    byte x l = empty_behind _ (omega arith) (omega arith)

pub occupied-IsElsewhere :
    (k : ℕ)
    → k < num_assets
    → (object_entry (active_of occupied) k).unique_id ≡ 5
    → (0 < (object_entry (active_of occupied) k).lblock)
      × ((object_entry (active_of occupied) k).lblock < 3)
      × ((object_entry (active_of occupied) k).data_index ≤ block_size)
unfolding occupied_tables of_assetmeta
occupied-IsElsewhere zero lt e = (omega arith, omega arith, omega arith)
occupied-IsElsewhere (suc k) lt e = absurd (omega (arith, e, empty_entry (suc k) (omega arith) lt))
