-- ===== src/Store/ValidateLaws.antt =====
-- What the checks on metadata let through, and the rounding of sizes.
use tfm_demo.Prelude.{ℕ, ◌+◌, ◌%◌, ◌≤◌, ◌<◌, ◌≡◌, ◌⊎◌, ◌↔◌, inl, inr, arith, word, subst, sym}
use native.Mathlib.Decide.{ℕ_discrete}
use tfm_demo.Sst.Utils.{SstErr, check_contained_in, validate_uuid, invalid_uuid}
use tfm_demo.Store.Layout.{
  block_size, num_active_dblocks, max_object_size, all_metadata_size, logical_dblock0,
}
use tfm_demo.Store.Meta.{AssetMeta}
use tfm_demo.Store.Validate.{validate_object_meta, get_aligned_flash_bytes}

-- A used entry describes an object that lies in its block, behind the metadata in block 0.
pub record IsStored (m : AssetMeta) : Type 0 where
  pub size : m.max_size ≤ max_object_size
  pub content : m.cur_size ≤ m.max_size
  pub behind : m.lblock ≡ logical_dblock0 → all_metadata_size ≤ m.data_index
  pub room : m.data_index + m.max_size ≤ block_size

abbrev pub IsEntry : AssetMeta → Type 0
IsEntry m = (m.lblock < num_active_dblocks) × ((m.unique_id ≡ invalid_uuid) ⊎ IsStored m)

validate_object_meta-IsEntry :
    (m : AssetMeta)
    → m.data_index < word
    → m.max_size < word
    → validate_object_meta m ≡ SstErr.success
    → IsEntry m
unfolding validate_object_meta check_contained_in validate_uuid
validate_object_meta-IsEntry m a b h = elim (ℕ_discrete m.unique_id invalid_uuid) [
  | yes e ↦ (ground (arith, h, e), inl e)
  | no ne ↦ (
    ground (arith, h, ne),
    inr record {
      size = ground (arith, h, ne);
      content = ground (arith, h, ne);
      behind = λ z. ground (arith, h, ne, z);
      room = ground (arith, h, ne);
    },
  )
]

accepted :
    (m : AssetMeta)
    → m.data_index < word
    → m.max_size < word
    → IsEntry m
    → validate_object_meta m ≡ SstErr.success
unfolding validate_object_meta check_contained_in validate_uuid
accepted m a b (lt, inl e) = ground (arith, lt, e)
accepted m a b (lt, inr st) = ground (arith, lt, st.size, st.content, st.behind, st.room)

-- For 32-bit members, an entry of the table of objects is accepted exactly if its block exists and it
-- is free, or its object has at most the maximal size, fits its block, and in block 0 lies behind the
-- metadata.
pub validate_object_meta_iff :
    (m : AssetMeta)
    → m.data_index < word
    → m.max_size < word
    → (validate_object_meta m ≡ SstErr.success) ↔ IsEntry m
validate_object_meta_iff m a b = (validate_object_meta-IsEntry m a b, accepted m a b)

-- The sizes of a program unit that sst_core.c supports.
abbrev pub IsUnit : ℕ → Type 0
IsUnit u = (u ≡ 1) ⊎ ((u ≡ 2) ⊎ (u ≡ 4))

abbrev pub IsRounded : ℕ → ℕ → ℕ → Type 0
IsRounded u n a = (a % u ≡ 0) × (n ≤ a) × (a < n + u)

-- For a program unit of 1, 2 or 4 bytes and a size that is not near 2 ^ 32, the aligned size is the
-- least multiple of the unit that is not smaller.
pub get_aligned_flash_bytes-IsRounded :
    (u n : ℕ) → IsUnit u → n + u ≤ word → IsRounded u n (get_aligned_flash_bytes u n)
unfolding get_aligned_flash_bytes
get_aligned_flash_bytes-IsRounded u n (inl e) h =
    subst (λ (v : ℕ). IsRounded v n (get_aligned_flash_bytes v n)) (sym e) (ground arith)
get_aligned_flash_bytes-IsRounded u n (inr (inl e)) h =
    subst (λ (v : ℕ). IsRounded v n (get_aligned_flash_bytes v n)) (sym e) (ground (arith, e))
get_aligned_flash_bytes-IsRounded u n (inr (inr e)) h =
    subst (λ (v : ℕ). IsRounded v n (get_aligned_flash_bytes v n)) (sym e) (ground (arith, e))
