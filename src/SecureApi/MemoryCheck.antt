-- ===== src/SecureApi/MemoryCheck.antt =====
-- What the memory permission check admits.
use tfm_demo.Prelude.{
  ℕ, ◌+◌, ◌-◌, ◌≤◌, ◌<◌, ◌≡◌, ◌≢◌, ◌⊎◌, ◌↔◌, true, false, arith, word, bit0, not, ◌==◌,
}
use tfm_demo.Machine.{Machine, Post}
use tfm_demo.Machine.Platform.{Platform, AddressInfo}
use tfm_demo.Spm.Types.{share_priv}
use tfm_demo.SecureApi.Request.{tfm_success}
use tfm_demo.SecureApi.View.{mark_at}
use tfm_demo.SecureApi.Handlers.{
  in_range, range_status, memory_permission_check_handler, access_rw, ns_region_code,
  ns_region_data,
}

-- For a region below the end of the address space and a buffer that is not empty, the test in
-- 32-bit arithmetic holds exactly if the buffer lies in the region: no wrap-around lets another in.
pub in_range_iff :
    (start size ptr len : ℕ)
    → 0 < size
    → start + size < word
    → ptr < word
    → len < word
    → 0 < len
    → (in_range size start (start + size - 1) ptr len ≡ true)
      ↔ ((start ≤ ptr) × (ptr + len ≤ start + size))
unfolding in_range
in_range_iff start size ptr len h1 h2 h3 h4 h5 = ground arith

-- The buffer lies in the scratch area.
abbrev pub InScratch : Platform → ℕ → ℕ → Type 0
InScratch p ptr size = (p.scratch_area ≤ ptr) × (ptr + size ≤ p.scratch_area + p.scratch_area_size)

-- Where a range may lie.
abbrev pub InNsRegion : AddressInfo → ℕ → Type 0
InNsRegion info access =
    (info.sau_region_valid ≡ true)
    × ((info.sau_region ≡ ns_region_data)
        ⊎ ((info.sau_region ≡ ns_region_code) × (access ≢ access_rw)))

range_status_sound :
    (p : Platform) (ptr size access : ℕ) (info : AddressInfo)
    → p.tfm_lvl ≢ 1
    → 0 < p.scratch_area_size
    → p.scratch_area + p.scratch_area_size < word
    → ptr < word
    → size < word
    → 0 < size
    → range_status p ptr size access info ≡ tfm_success
    → (info.secure ≡ true → InScratch p ptr size) × (info.secure ≡ false → InNsRegion info access)
unfolding range_status
range_status_sound p ptr size access info lvl s1 s2 h1 h2 h3 e = ground arith

-- What an admitted request is known to satisfy.
pub record Admitted (p : Platform) (ptr size access : ℕ) (m : Machine) : Type 0 where
  pub not_empty : 0 < size
  pub from_secure : bit0 (mark_at m m.db.running_partition_idx).flags ≡ true
  pub mpu :
      p.check_address_range ptr size
        (not ((m.db.partitions m.db.running_partition_idx).runtime_data.share == share_priv))
        (access == access_rw)
      ≡ true
  pub in_scratch : (p.address_info ptr).secure ≡ true → InScratch p ptr size
  pub in_ns_region : (p.address_info ptr).secure ≡ false → InNsRegion (p.address_info ptr) access

-- Above level 1, with a scratch area below the end of the address space, and if it comes back, the
-- check of a 32-bit address and size changes nothing,
-- and where it answers success the request came from a secure partition, is not empty and passed
-- the MPU check at the partition's privilege; a buffer at a secure address lies in the scratch area,
-- any other begins in the non-secure data region, or in the code region and is not to be written.
pub memory_permission_check-Admitted :
    (p : Platform) (ptr size access : ℕ) (m : Machine)
    → p.tfm_lvl ≢ 1
    → 0 < p.scratch_area_size
    → p.scratch_area + p.scratch_area_size < word
    → ptr < word
    → size < word
    → Post
        (memory_permission_check_handler p ptr size access m)
        (λ res m'. (m' ≡ m) × (res ≡ tfm_success → Admitted p ptr size access m))
unfolding memory_permission_check_handler
memory_permission_check-Admitted p ptr size access m lvl s1 s2 h1 h2 =
    ground (arith, range_status_sound p ptr size access (p.address_info ptr))
