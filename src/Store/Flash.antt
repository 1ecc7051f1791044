-- ===== src/Store/Flash.antt =====
-- flash/sst_flash.c over the CMSIS flash driver, which is a parameter.
use tfm_demo.Prelude.{ℕ, ◌+◌, ◌*◌, ◌%◌, ◌≤◌, ◌<◌, ◌≡◌, ◌⊎◌, word}
use tfm_demo.AuditLog.Buffer.{Bytes}
use tfm_demo.Sst.Utils.{SstErr}
use tfm_demo.Store.Layout.{block_size, flash_area_addr, flash_default_val}
use tfm_demo.Store.Effects.{Storage, Action, done, failed, power_lost, ◌>>=◌}

-- What a request to the driver comes to: ARM_DRIVER_OK, an error code, or the power fails.
pub data Reply : Type 0 where
  ok error cut_off : Reply

-- ReadData, ProgramData and EraseSector of ARM_DRIVER_FLASH. Each takes the count of requests and the
-- contents of the flash, and gives the data read, or the contents afterwards.
pub record Driver : Type 0 where
  pub read_reply : ℕ → Bytes → ℕ → ℕ → Reply
  pub read_data : ℕ → Bytes → ℕ → ℕ → Bytes
  pub program_reply : ℕ → Bytes → ℕ → Bytes → ℕ → Reply
  pub program_data : ℕ → Bytes → ℕ → Bytes → ℕ → Bytes
  pub erase_reply : ℕ → Bytes → ℕ → Reply
  pub erase_sector : ℕ → Bytes → ℕ → Bytes

-- What the file system relies on: data read are those of the flash; programming touches the bytes
-- named only, and where it succeeds on erased bytes they hold the data; erasing touches the sector
-- only, and where it succeeds the sector is erased. Sectors are aligned.
pub record IsFlash (d : Driver) : Type 0 where
  pub reads :
      (t : ℕ) (flash : Bytes) (addr size k : ℕ)
      → d.read_reply t flash addr size ≡ Reply.ok
      → k < size
      → d.read_data t flash addr size k ≡ flash (addr + k)
  pub programs :
      (t : ℕ) (flash : Bytes) (addr : ℕ) (buff : Bytes) (size k : ℕ)
      → d.program_reply t flash addr buff size ≡ Reply.ok
      → k < size
      → flash (addr + k) ≡ flash_default_val
      → d.program_data t flash addr buff size (addr + k) ≡ buff k
  pub programs_only :
      (t : ℕ) (flash : Bytes) (addr : ℕ) (buff : Bytes) (size x : ℕ)
      → (x < addr) ⊎ (addr + size ≤ x)
      → d.program_data t flash addr buff size x ≡ flash x
  pub erases :
      (t : ℕ) (flash : Bytes) (addr k : ℕ)
      → d.erase_reply t flash addr ≡ Reply.ok
      → k < block_size
      → d.erase_sector t flash addr (addr + k) ≡ flash_default_val
  pub erases_only :
      (t : ℕ) (flash : Bytes) (addr x : ℕ)
      → (x < addr) ⊎ (addr + block_size ≤ x)
      → d.erase_sector t flash addr x ≡ flash x

-- Every request is answered ARM_DRIVER_OK.
pub record Works (d : Driver) : Type 0 where
  pub read_works :
      (t : ℕ) (flash : Bytes) (addr size : ℕ) → d.read_reply t flash addr size ≡ Reply.ok
  pub program_works :
      (t : ℕ) (flash : Bytes) (addr : ℕ) (buff : Bytes) (size : ℕ)
      → d.program_reply t flash addr buff size ≡ Reply.ok
  pub erase_works : (t : ℕ) (flash : Bytes) (addr : ℕ) → d.erase_reply t flash addr ≡ Reply.ok

-- `static uint32_t get_phys_address`
abbrev pub phys_address : ℕ → ℕ → ℕ
phys_address block_id offset = (flash_area_addr + block_id * block_size + offset) % word

abbrev pub answer {ℓ} : {A : Type ℓ} → Reply → A → Action A
answer ok a s = done a s
answer error a s = failed SstErr.system_error s
answer cut_off a s = power_lost s

abbrev pub request : Storage → Bytes → Storage
request s flash = record s { flash = flash; requests = s.requests + 1 }

module _ (d : Driver) where
  unfoldable pub flash_read : ℕ → ℕ → Action Bytes
  flash_read addr size s =
      answer (d.read_reply s.requests s.flash addr size) (d.read_data s.requests s.flash addr size)
        (request s s.flash)

  unfoldable pub flash_write : ℕ → Bytes → ℕ → Action (Unit {0})
  flash_write addr buff size s =
      answer (d.program_reply s.requests s.flash addr buff size) tt
        (request s (d.program_data s.requests s.flash addr buff size))

  unfoldable pub flash_erase : ℕ → Action (Unit {0})
  flash_erase addr s =
      answer (d.erase_reply s.requests s.flash addr) tt
        (request s (d.erase_sector s.requests s.flash addr))

  unfoldable pub read : ℕ → ℕ → ℕ → Action Bytes
  read block_id offset size = flash_read (phys_address block_id offset) size

  unfoldable pub write : ℕ → Bytes → ℕ → ℕ → Action (Unit {0})
  write block_id buff offset size = flash_write (phys_address block_id offset) buff size

  -- The static buffer is filled by the read before its bytes are used.
  unfoldable pub block_to_block_move : ℕ → ℕ → ℕ → ℕ → ℕ → Action (Unit {0})
  block_to_block_move dst_block dst_offset src_block src_offset size = do
    copy ← flash_read (phys_address src_block src_offset) size
    flash_write (phys_address dst_block dst_offset) copy size

  unfoldable pub erase_block : ℕ → Action (Unit {0})
  erase_block block_id = flash_erase (phys_address block_id 0)
