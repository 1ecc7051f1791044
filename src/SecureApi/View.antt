-- ===== src/SecureApi/View.antt =====
-- What the accounting of calls reads of the machine: of each partition its state, its caller, its
-- saved context and its fixed data; and the counters of the database and of the lock. The stack pointer
-- of a partition and its share are not among them: `tfm_push_lock` sets the stack pointer of a secure
-- caller, and nothing sets it back.
use tfm_demo.Prelude.{ℕ, ◌≡◌, refl, ◌∙◌, Bool}
use tfm_demo.Machine.{Machine}
use tfm_demo.Spm.Types.{PartState, PartitionDesc}

pub record Mark : Type 0 where
  pub state : PartState
  pub caller : ℕ
  pub psp : ℕ
  pub psplim : ℕ
  pub lr : ℕ
  pub id : ℕ
  pub flags : ℕ

abbrev pub mark : PartitionDesc → Mark
mark p = record {
  state = p.runtime_data.partition_state;
  caller = p.runtime_data.caller_partition_idx;
  psp = p.runtime_data.orig_psp;
  psplim = p.runtime_data.orig_psplim;
  lr = p.runtime_data.orig_lr;
  id = p.static_data.partition_id;
  flags = p.static_data.partition_flags;
}

abbrev pub mark_at : Machine → ℕ → Mark
mark_at m j = mark (m.db.partitions j)

pub record Globals : Type 0 where
  pub running : ℕ
  pub count : ℕ
  pub is_init : ℕ
  pub lock : ℕ
  pub init : Bool

abbrev pub globals : Machine → Globals
globals m = record {
  running = m.db.running_partition_idx;
  count = m.db.partition_count;
  is_init = m.db.is_init;
  lock = m.secure_lock;
  init = m.secure_api_init;
}

-- Nothing of this differs between two machines.
pub record Same (m m' : Machine) : Type 0 where
  pub marks : (j : ℕ) → mark_at m' j ≡ mark_at m j
  pub rest : globals m' ≡ globals m

pub Same-refl : (m : Machine) → Same m m
Same-refl m = record { marks = λ j. refl; rest = refl }

pub Same-trans : {m m' m'' : Machine} → Same m m' → Same m' m'' → Same m m''
Same-trans s t = record { marks = λ j. t.marks j ∙ s.marks j; rest = t.rest ∙ s.rest }
