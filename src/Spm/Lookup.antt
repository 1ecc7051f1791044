-- ===== src/Spm/Lookup.antt =====
-- What the look-up of a partition by its ID finds.
use tfm_demo.Prelude.{
  ℕ, zero, suc, ◌+◌, ◌≤◌, ◌<◌, ◌≡◌, ◌≢◌, ◌⊎◌, inl, inr, refl, arith, ◌==◌, Bool-cases,
}
use tfm_demo.Spm.Types.{PartitionDesc, PartitionDb, invalid_partition_idx, invalid_partition_id}
use tfm_demo.Spm.Db.{find_partition, get_partition_idx}

abbrev pub id_at : (ℕ → PartitionDesc) → ℕ → ℕ
id_at ps j = (ps j).static_data.partition_id

-- `r` is the first index from `i` on, of `count`, with the ID; or there is none.
abbrev pub Finds : (ℕ → PartitionDesc) → ℕ → ℕ → ℕ → ℕ → Type 0
Finds ps id i count r =
    ((i ≤ r) × (r < i + count) × (id_at ps r ≡ id) × ((j : ℕ) → i ≤ j → j < r → id_at ps j ≢ id))
    ⊎ ((r ≡ invalid_partition_idx) × ((j : ℕ) → i ≤ j → j < i + count → id_at ps j ≢ id))

find_partition-Finds :
    (ps : ℕ → PartitionDesc) (id i count : ℕ) → Finds ps id i count (find_partition ps id i count)
unfolding find_partition
find_partition-Finds ps id i zero = inr (refl, λ j a b. absurd (omega arith))
find_partition-Finds ps id i (suc count) = elim (Bool-cases (id_at ps i == id)) [
  | inl e ↦ rw e (inl (omega arith, omega arith, ground (arith, e), λ j a b. absurd (omega arith)))
  | inr e ↦ rw e (elim (find_partition-Finds ps id (i + 1) count) [
    | inl (a, b, c, d) ↦ inl (omega arith, omega arith, c, λ j x y h. ground (arith, e, h, d j))
    | inr (a, d) ↦ inr (a, λ j x y h. ground (arith, e, h, d j))
  ])
]

-- The look-up of an ID other than the reserved one returns the index of the first entry with that
-- ID, or the invalid index where no entry has it.
pub get_partition_idx-Finds :
    (db : PartitionDb) (id : ℕ)
    → id ≢ invalid_partition_id
    → Finds db.partitions id 0 db.partition_count (get_partition_idx db id)
unfolding get_partition_idx
get_partition_idx-Finds db id h =
    ground (arith, find_partition-Finds db.partitions id 0 db.partition_count)
