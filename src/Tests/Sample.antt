-- ===== src/Tests/Sample.antt =====
-- A machine at isolation level 1: the non-secure environment runs, and a secure partition with ID
-- 256 at index 2 is idle.
use tfm_demo.Prelude.{ℕ, none, some, true, false, ◌==◌, if◌then◌else◌, []}
use tfm_demo.Machine.{Machine}
use tfm_demo.Machine.Platform.{Platform}
use tfm_demo.Spm.Types.{SpmErr, PartState, PartitionDesc, invalid_partition_idx, share_default}
use tfm_demo.Spm.Init.{zero_memory, zero_runtime}
use tfm_demo.SecureApi.Request.{SfnReq, Args}

abbrev pub at_level : ℕ → Platform
at_level n = record {
  tfm_lvl = n;
  core_debug = true;
  return_from_sfn = 4096;
  partition_return_svc = 8192;
  secure_stack_base = 805314560;
  secure_stack_limit = 805310464;
  s_data_start = 805306368;
  s_data_limit = 805371903;
  s_data_size = 65536;
  scratch_area = 805330944;
  scratch_area_size = 1024;
  ns_stack_mem = 537919488;
  ns_stack_top = 537923584;
  hal = λ _. SpmErr.ok;
  check_address_range = λ a size u w. true;
  address_info = λ a. record { secure = true; sau_region_valid = true; sau_region = 1 };
}

abbrev pub level1 : Platform
level1 = at_level 1

abbrev pub partition : ℕ → ℕ → PartState → ℕ → PartitionDesc
partition id flags st caller = record {
  static_data = record { partition_id = id; partition_flags = flags; partition_init = none };
  runtime_data = record zero_runtime {
    partition_state = st;
    caller_partition_idx = caller;
    share = share_default;
    stack_ptr = 805316608;
  };
  platform_data = none;
  memory_data = zero_memory;
}

abbrev pub sample_partitions : ℕ → PartitionDesc
sample_partitions j =
    if j == 0
    then partition 0 0 PartState.running invalid_partition_idx
    else if j == 1
    then partition 1 3 PartState.idle invalid_partition_idx
    else if j == 2
    then partition 256 3 PartState.idle invalid_partition_idx
    else partition 512 3 PartState.idle invalid_partition_idx

abbrev pub machine : ℕ → (ℕ → PartitionDesc) → Machine
machine running parts = record {
  db = record {
    is_init = 1;
    partition_count = 4;
    running_partition_idx = running;
    partitions = parts;
  };
  secure_lock = 0;
  secure_api_init = false;
  ns_state_aircr = 0;
  cpu = record {
    psp = 805316608;
    psplim = 805306368;
    npriv = false;
    spsel = true;
    irq_disabled = false;
    aircr = 0;
    shcsr = 0;
  };
  memory = λ _. 0;
  hal_calls = [];
}

-- The non-secure environment runs, and nothing is in a call.
abbrev pub ns_running : Machine
ns_running = machine 0 sample_partitions

-- The partition at index 2 runs, called by the non-secure environment.
abbrev pub in_call_partitions : ℕ → PartitionDesc
in_call_partitions j =
    if j == 0
    then partition 0 0 PartState.blocked invalid_partition_idx
    else if j == 2
    then partition 256 3 PartState.running 0
    else sample_partitions j

abbrev pub in_call : Machine
in_call = record (machine 2 in_call_partitions) { secure_lock = 1 }

abbrev pub no_args : Args
no_args = record { arg0 = 0; arg1 = 0; arg2 = 0; arg3 = 0 }

abbrev pub request : ℕ → ℕ → SfnReq
request id exc = record {
  sp_id = id;
  sfn = some 805500001;
  args = no_args;
  exc_num = exc;
  ns_caller = true;
}
