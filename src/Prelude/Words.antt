-- ===== src/Prelude/Words.antt =====
-- 32-bit machine words: numbers below 2 ^ 32, with the wrap-around written out.
use Prim.Native.Nat.{ℕ, ◌+◌, ◌-◌, ◌/◌, ◌%◌, ◌^◌}
use mathlib.Core.Bool.{Bool}
use tfm_demo.Prelude.Tests.{◌==◌}

abbrev pub word : ℕ
word = 2 ^ 32

-- a + b and a - b of uint32_t
abbrev pub add32 : ℕ → ℕ → ℕ
add32 a b = (a + b) % word

abbrev pub sub32 : ℕ → ℕ → ℕ
sub32 a b = (a + word - b) % word

-- ~a of uint32_t
abbrev pub not32 : ℕ → ℕ
not32 a = word - 1 - a

-- `(flags & 0x01) != 0` and `(flags & 0x02) != 0`
abbrev pub bit0 : ℕ → Bool
bit0 flags = flags % 2 == 1

abbrev pub bit1 : ℕ → Bool
bit1 flags = flags / 2 % 2 == 1
