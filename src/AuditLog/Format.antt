-- ===== src/AuditLog/Format.antt =====
-- The item that `log_format_buffer` writes: a field at its place, and the length the code computes.
use tfm_demo.Prelude.{
  ℕ, zero, suc, ltb, false, refl, ◌+◌, ◌%◌, ◌≤◌, ◌<◌, ◌≡◌, ◌∙◌, sym, ap, arith, inl,
}
use tfm_demo.AuditLog.Buffer.{Bytes, byte_of}
use tfm_demo.AuditLog.Item.{
  LogLine, line_bytes, log_format_buffer, store_le, stamped, headed, filled, dummy_partition_id,
}
use tfm_demo.AuditLog.Copy.{copy_from-outside, copy_from-inside, read32-byte_of}
use tfm_demo.AuditLog.Items.{Item, IsItem}

-- The item of a line under a timestamp, over what the scratch buffer held.
abbrev pub item_of : ℕ → LogLine → Bytes → Item
item_of t line scratch = record { len = line.size + 24; bytes = log_format_buffer t line scratch }

-- In a formatted item every byte of the line, the size field included, stands behind the first 16
-- bytes, in order.
pub log_format_buffer-line :
    (t : ℕ) (line : LogLine) (scratch : Bytes) (k : ℕ)
    → k < line.size + 4
    → log_format_buffer t line scratch (16 + k) ≡ line_bytes line k
unfolding log_format_buffer
log_format_buffer-line t line scratch k lt =
    copy_from-outside (20 + line.size) 0 4 (16 + k) (λ idx. idx) (filled t line scratch)
      (inl (omega arith))
    ∙ copy_from-inside 16 0 (line.size + 4) k (line_bytes line) (headed t scratch) (omega arith)
        (omega arith)

-- A byte of the timestamp.
pub log_format_buffer-timestamp :
    (t : ℕ) (line : LogLine) (scratch : Bytes) (k : ℕ)
    → k < 8
    → log_format_buffer t line scratch k ≡ byte_of t k
unfolding log_format_buffer
log_format_buffer-timestamp t line scratch k lt =
    copy_from-outside (20 + line.size) 0 4 k (λ idx. idx) (filled t line scratch)
      (inl (omega arith))
    ∙ copy_from-outside 16 0 (line.size + 4) k (line_bytes line) (headed t scratch)
        (inl (omega arith))
    ∙ copy_from-outside 12 0 4 k (byte_of dummy_partition_id) (store_le 8 4 0 (stamped t scratch))
        (inl (omega arith))
    ∙ copy_from-outside 8 0 4 k (byte_of 0) (stamped t scratch) (inl (omega arith))
    ∙ ap (stamped t scratch) (sym zero-plus)
    ∙ copy_from-inside 0 0 8 k (byte_of t) scratch (omega arith) (omega arith)
  where
    zero-plus : 0 + k ≡ k
    zero-plus = omega arith

pub item_of-IsItem :
    (t : ℕ) (line : LogLine) (scratch : Bytes)
    → line.size % 4 ≡ 0
    → line.size ≤ 1000
    → IsItem (item_of t line scratch)
item_of-IsItem t line scratch al le = record {
  sized =
      ap (λ x. x + 24)
        (sym (read32-byte_of (log_format_buffer t line scratch) 16 line.size (omega arith) field));
  fits = omega arith;
  aligned = omega arith;
}
  where
    field : (k : ℕ) → k < 4 → log_format_buffer t line scratch (16 + k) ≡ byte_of line.size k
    field k lt = log_format_buffer-line t line scratch k (omega arith) ∙ ground arith

-- The item of a line in the layout of log_core.h: the timestamp, a thread id of 0, the dummy partition
-- id, the line with its size in front, and a MAC of which the bytes count up from 0.
pub record IsItemOf (t : ℕ) (line : LogLine) (it : Item) : Type 0 where
  pub length : it.len ≡ 20 + line.size + 4
  pub timestamp : (k : ℕ) → k < 8 → it.bytes k ≡ byte_of t k
  pub thread : (k : ℕ) → k < 4 → it.bytes (8 + k) ≡ 0
  pub partition : (k : ℕ) → k < 4 → it.bytes (12 + k) ≡ byte_of dummy_partition_id k
  pub size : (k : ℕ) → k < 4 → it.bytes (16 + k) ≡ byte_of line.size k
  pub body : (k : ℕ) → k < line.size → it.bytes (20 + k) ≡ line.body k
  pub mac : (k : ℕ) → k < 4 → it.bytes (20 + line.size + k) ≡ k

zero_byte : (k : ℕ) → byte_of 0 k ≡ 0
zero_byte zero = refl
zero_byte (suc k) = zero_byte k

pub item_of-IsItemOf :
    (t : ℕ) (line : LogLine) (scratch : Bytes) → IsItemOf t line (item_of t line scratch)
unfolding log_format_buffer
item_of-IsItemOf t line scratch = record {
  length = omega arith;
  timestamp = λ k l. log_format_buffer-timestamp t line scratch k l;
  thread = λ k l.
      in_header (8 + k) (omega arith)
      ∙ copy_from-outside 12 0 4 (8 + k) (byte_of dummy_partition_id)
          (store_le 8 4 0 (stamped t scratch)) (inl (omega arith))
      ∙ copy_from-inside 8 0 4 k (byte_of 0) (stamped t scratch) (omega arith) (omega arith)
      ∙ zero_byte k;
  partition = λ k l.
      in_header (12 + k) (omega arith)
      ∙ copy_from-inside 12 0 4 k (byte_of dummy_partition_id) (store_le 8 4 0 (stamped t scratch))
          (omega arith) (omega arith);
  size = λ k l. log_format_buffer-line t line scratch k (omega arith) ∙ ground arith;
  body = λ k l.
      ap (log_format_buffer t line scratch) (omega arith)
      ∙ log_format_buffer-line t line scratch (4 + k) (omega arith)
      ∙ in_body k;
  mac = λ k l.
      copy_from-inside (20 + line.size) 0 4 k (λ idx. idx) (filled t line scratch) (omega arith)
        (omega arith);
}
  where
    in_header : (x : ℕ) → x < 16 → log_format_buffer t line scratch x ≡ headed t scratch x
    in_header x l =
        copy_from-outside (20 + line.size) 0 4 x (λ idx. idx) (filled t line scratch)
          (inl (omega arith))
        ∙ copy_from-outside 16 0 (line.size + 4) x (line_bytes line) (headed t scratch)
            (inl (omega arith))

    behind : (k : ℕ) → ltb (4 + k) 4 ≡ false
    behind k = ground arith

    in_body : (k : ℕ) → line_bytes line (4 + k) ≡ line.body k
    in_body k = rw (behind k) (ap line.body (omega arith))
