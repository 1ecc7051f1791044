-- ===== src/AuditLog/Copy.antt =====
-- What the copy loops write and what they leave.
use tfm_demo.Prelude.{ℕ, zero, suc, ◌+◌, ◌%◌, ◌^◌, ◌≤◌, ◌<◌, ◌≡◌, ◌≢◌, ◌⊎◌, refl, ap, ◌∙◌, arith}
use native.Mathlib.Decide.{ℕ_discrete}
use tfm_demo.AuditLog.Buffer.{Bytes, log_size, copy_from, ring_copy, store, byte_of, read32}

-- An index that the loop does not write keeps its byte.
pub ring_copy-outside :
    (at i n x : ℕ) (src dest : Bytes)
    → ((k : ℕ) → i ≤ k → k < i + n → (at + k) % log_size ≢ x)
    → ring_copy at src i n dest x ≡ dest x
unfolding ring_copy
ring_copy-outside at i zero x src dest h = refl
ring_copy-outside at i (suc n) x src dest h = ground (
  arith,
  ring_copy-outside at (i + 1) n x src (store dest ((at + i) % log_size) (src i))
      (λ k a b. h k (omega arith) (omega arith)),
  h i (omega arith) (omega arith),
)

-- A loop of at most `log_size` rounds puts byte `k` of the source at its index, modulo the size.
pub ring_copy-inside :
    (at i n k : ℕ) (src dest : Bytes)
    → i + n ≤ log_size
    → i ≤ k
    → k < i + n
    → ring_copy at src i n dest ((at + k) % log_size) ≡ src k
unfolding ring_copy
ring_copy-inside at i zero k src dest h a b = absurd (omega arith)
ring_copy-inside at i (suc n) k src dest h a b = elim (ℕ_discrete i k) [
  | yes e ↦ ground (
    arith,
    e,
    ring_copy-outside at (i + 1) n ((at + k) % log_size) src
        (store dest ((at + i) % log_size) (src i)) (λ j c d. omega arith),
  )
  | no ne ↦
      ring_copy-inside at (i + 1) n k src (store dest ((at + i) % log_size) (src i)) (omega arith)
        (omega arith) (omega arith)
]

pub copy_from-outside :
    (at i n x : ℕ) (src dest : Bytes)
    → (x < at + i) ⊎ (at + (i + n) ≤ x)
    → copy_from at src i n dest x ≡ dest x
unfolding copy_from
copy_from-outside at i zero x src dest h = refl
copy_from-outside at i (suc n) x src dest h =
    ground (arith, copy_from-outside at (i + 1) n x src (store dest (at + i) (src i)))

pub copy_from-inside :
    (at i n k : ℕ) (src dest : Bytes)
    → i ≤ k
    → k < i + n
    → copy_from at src i n dest (at + k) ≡ src k
unfolding copy_from
copy_from-inside at i zero k src dest a b = absurd (omega arith)
copy_from-inside at i (suc n) k src dest a b = elim (ℕ_discrete i k) [
  | yes e ↦
      ground (arith, e, copy_from-outside at (i + 1) n (at + k) src (store dest (at + i) (src i)))
  | no ne ↦
      copy_from-inside at (i + 1) n k src (store dest (at + i) (src i)) (omega arith) (omega arith)
]

-- A 32-bit value is read back from its four bytes.
pub read32-byte_of :
    (b : Bytes) (i v : ℕ)
    → v < 2 ^ 32
    → ((k : ℕ) → k < 4 → b (i + k) ≡ byte_of v k)
    → read32 b i ≡ v
read32-byte_of b i v lt h =
    omega (arith, at0, h 1 (omega arith), h 2 (omega arith), h 3 (omega arith))
  where
    at0 : b i ≡ v % 256
    at0 = ap b (omega arith) ∙ h 0 (omega arith)
