-- ===== src/SecureApi/FrameLayout.antt =====
-- Where `prepare_partition_ctx` puts the words of an exception frame.
use tfm_demo.Prelude.{ℕ, ◌+◌, ◌-◌, ◌≤◌, ◌<◌, ◌≡◌, ◌⊎◌, arith, word}
use tfm_demo.Machine.Platform.{Platform}
use tfm_demo.SecureApi.Request.{SfnReq}
use tfm_demo.SecureApi.Frame.{Stack, prepare_partition_ctx, address}

-- The frame of an Armv8-M exception return, from address `a` up: R0 to R3, R12, LR, the return
-- address and XPSR with the Thumb bit.
pub record IsFrame (p : Platform) (d : SfnReq) (a : ℕ) (words : ℕ → ℕ) : Type 0 where
  pub r0 : words a ≡ d.args.arg0
  pub r1 : words (a + 4) ≡ d.args.arg1
  pub r2 : words (a + 8) ≡ d.args.arg2
  pub r3 : words (a + 12) ≡ d.args.arg3
  pub r12 : words (a + 16) ≡ 0
  pub lr : words (a + 20) ≡ p.partition_return_svc
  pub return_address : words (a + 24) ≡ address d.sfn
  pub xpsr : words (a + 28) ≡ 0x01000000

-- From a stack pointer with 32 bytes of room below it, the pointer drops by exactly 32, the words
-- from there on are the frame, and every address outside those 32 bytes keeps its word.
pub prepare_partition_ctx-IsFrame :
    (p : Platform) (d : SfnReq) (s : Stack)
    → 32 ≤ s.dst
    → s.dst < word
    → ((prepare_partition_ctx p d s).dst ≡ s.dst - 32)
      × IsFrame p d (s.dst - 32) (prepare_partition_ctx p d s).words
      × ((x : ℕ)
          → (x + 32 < s.dst) ⊎ (s.dst ≤ x)
          → (prepare_partition_ctx p d s).words x ≡ s.words x)
unfolding prepare_partition_ctx
prepare_partition_ctx-IsFrame p d s lo hi = ground arith
