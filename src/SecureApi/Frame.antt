-- ===== src/SecureApi/Frame.antt =====
-- The exception frame that starts a secure function: `prepare_partition_ctx` of
-- secure_fw/core/tfm_secure_api.c.
use tfm_demo.Prelude.{ℕ, zero, suc, Option, none, some, sub32}
use tfm_demo.Machine.{store_word}
use tfm_demo.Machine.Platform.{Platform}
use tfm_demo.SecureApi.Request.{SfnReq, Args, arg_at}

-- A stack pointer and the memory.
pub record Stack : Type 0 where
  pub dst : ℕ
  pub words : ℕ → ℕ

-- *(--dst) = v
abbrev pub push_word : ℕ → Stack → Stack
push_word v s = record { dst = sub32 s.dst 4; words = store_word s.words (sub32 s.dst 4) v }

-- while (i > 0) { i--; *(--dst) = args[i]; }
unfoldable pub push_args : Args → ℕ → Stack → Stack
push_args a zero s = s
push_args a (suc i) s = push_args a i (push_word (arg_at a i) s)

-- (uint32_t) of a function pointer
abbrev pub address : Option ℕ → ℕ
address none = 0
address (some f) = f

unfoldable pub prepare_partition_ctx : Platform → SfnReq → Stack → Stack
unfolding push_args
prepare_partition_ctx p desc s = push_args desc.args 4 (
    push_word 0
      (push_word p.partition_return_svc (push_word (address desc.sfn) (push_word 0x01000000 s))))
