-- ===== src/SecureApi/RequestLaws.antt =====
-- The checks round a request, and what a request leaves of the interrupt mask.
use tfm_demo.Prelude.{ℕ, ◌<◌, ◌≡◌, ◌≢◌, ◌⊎◌, ◌↔◌, some, true, false, arith}
use tfm_demo.Machine.{Machine, done}
use tfm_demo.Machine.Platform.{Platform}
use tfm_demo.SecureApi.Request.{SfnReq, tfm_success, exc_num_thread_mode, exc_num_svcall}
use tfm_demo.SecureApi.Sfn.{
  Partitions, check_sfn_req_integrity, check_sfn_req_rules, request_checked, sfn_request_function,
  is_reserved, error_status,
}

-- A request is allowed exactly from a secure caller in thread mode, or from a non-secure caller in
-- the SVC handler while the secure domain is not locked.
pub check_sfn_req_rules_iff :
    (d : SfnReq) (lock : ℕ)
    → (check_sfn_req_rules d lock ≡ tfm_success) ↔ (
        ((d.ns_caller ≡ false) × (d.exc_num ≡ exc_num_thread_mode))
        ⊎ ((d.ns_caller ≡ true) × (d.exc_num ≡ exc_num_svcall) × (lock ≡ 0)))
unfolding check_sfn_req_rules
check_sfn_req_rules_iff d lock = ground arith

-- The reserved values are 1 to 31.
is_reserved_iff : (w : ℕ) → (is_reserved w ≡ true) ↔ ((0 < w) × (w < 32))
unfolding is_reserved
is_reserved_iff w = ground arith

module _ (p : Platform) (s : Partitions) where
  -- A request that the rules refuse returns its status, with the machine as it was but interrupts
  -- enabled.
  pub sfn_request-refused :
      (d : SfnReq) (m : Machine)
      → check_sfn_req_integrity (some d) ≡ tfm_success
      → check_sfn_req_rules d m.secure_lock ≢ tfm_success
      → sfn_request_function p s (some d) m
        ≡ done
            (error_status p (check_sfn_req_rules d m.secure_lock))
            (record m { cpu = record m.cpu { irq_disabled = false } })
  unfolding sfn_request_function request_checked
  sfn_request-refused d m i r = ground arith
