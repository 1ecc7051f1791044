-- ===== src/AuditLog/Buffer.antt =====
-- Byte arrays and the copy loops of log_core.c. An array is a function from index to byte.
use tfm_demo.Prelude.{ℕ, zero, suc, ◌+◌, ◌*◌, ◌/◌, ◌%◌, ◌==◌, if◌then◌else◌}

abbrev pub Bytes : Type 0
Bytes = ℕ → ℕ

-- LOG_SIZE
abbrev pub log_size : ℕ
log_size = 1024

-- b[i] = v
abbrev pub store : Bytes → ℕ → ℕ → Bytes
store b i v x = if x == i then v else b x

-- for (idx = i; idx < i + rounds; idx++) dest[at + idx] = src[idx];
unfoldable pub copy_from : ℕ → Bytes → ℕ → ℕ → Bytes → Bytes
copy_from at src i zero dest = dest
copy_from at src i (suc rounds) dest = copy_from at src (i + 1) rounds (store dest (at + i) (src i))

-- The loop of `log_buffer_copy`: the index wraps at the end of the log.
unfoldable pub ring_copy : ℕ → Bytes → ℕ → ℕ → Bytes → Bytes
ring_copy at src i zero dest = dest
ring_copy at src i (suc rounds) dest =
    ring_copy at src (i + 1) rounds (store dest ((at + i) % log_size) (src i))

-- A little-endian field of `n` bytes, as the processor stores it.
abbrev pub byte_of : ℕ → ℕ → ℕ
byte_of v zero = v % 256
byte_of v (suc k) = byte_of (v / 256) k

-- *(uint32_t *)&b[i]
abbrev pub read32 : Bytes → ℕ → ℕ
read32 b i = b i + 256 * b (i + 1) + 65536 * b (i + 2) + 16777216 * b (i + 3)
