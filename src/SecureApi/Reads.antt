-- ===== src/SecureApi/Reads.antt =====
-- The reads of the database under a continuation: what is read, in the same state.
use tfm_demo.Prelude.{ℕ, ◌≡◌, true, ltb, Bool-cases, inl, inr}
use tfm_demo.Machine.{Machine, Post, Action, continue}
use tfm_demo.Spm.Types.{RuntimeData, max_partitions}
use tfm_demo.Spm.Db.{get_flags, get_runtime_data, get_partition_id}
use tfm_demo.SecureApi.View.{mark_at}

-- A continuation of a read of the flags gets them, in the same state.
pub get_flags-bind :
    {B : Type 0} {Q : B → Machine → Type 0} (j : ℕ) (m : Machine) (f : ℕ → Action B)
    → Post (f (mark_at m j).flags m) Q
    → Post (continue (get_flags j m) f) Q
unfolding get_flags
get_flags-bind j m f h = elim (Bool-cases (ltb j max_partitions)) [
  | inl e ↦ rw e h
  | inr e ↦ rw e (record { holds = tt })
]

pub get_partition_id-bind :
    {B : Type 0} {Q : B → Machine → Type 0} (j : ℕ) (m : Machine) (f : ℕ → Action B)
    → Post (f (mark_at m j).id m) Q
    → Post (continue (get_partition_id j m) f) Q
unfolding get_partition_id
get_partition_id-bind j m f h = elim (Bool-cases (ltb j max_partitions)) [
  | inl e ↦ rw e h
  | inr e ↦ rw e (record { holds = tt })
]

-- What follows a read of the runtime data may use that the index is in the array.
pub get_runtime_data-bind :
    {B : Type 0} {Q : B → Machine → Type 0} (j : ℕ) (m : Machine) (f : RuntimeData → Action B)
    → (ltb j max_partitions ≡ true → Post (f (m.db.partitions j).runtime_data m) Q)
    → Post (continue (get_runtime_data j m) f) Q
unfolding get_runtime_data
get_runtime_data-bind j m f h = elim (Bool-cases (ltb j max_partitions)) [
  | inl e ↦ rw e (h e)
  | inr e ↦ rw e (record { holds = tt })
]
