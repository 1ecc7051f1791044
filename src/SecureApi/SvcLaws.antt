-- ===== src/SecureApi/SvcLaws.antt =====
-- A request through the SVC does what a direct one does.
use tfm_demo.Prelude.{
  ℕ, ◌≡◌, refl, ◌∙◌, inl, inr, Option, some, Bool, Bool-cases, true, false, not, ◌&&◌, ◌==◌,
}
use tfm_demo.Machine.{Machine, Outcome, done, stopped, continue, pure}
use tfm_demo.Machine.Platform.{Platform}
use tfm_demo.SecureApi.Request.{SfnReq, tfm_success, exc_num_thread_mode}
use tfm_demo.SecureApi.Sfn.{
  Partitions, check_sfn_req_integrity, sfn_request_function, partition_request_svc_handler,
  on_process_stack,
}
use tfm_demo.SecureApi.Svc.{
  SvcArgs, ended, svc_number, svc_sfn_request, svc_dispatch, svc_handler_main, on_secure_stack,
  partition_request,
}

continue-r0 :
    (o : Outcome ℕ) (lr : ℕ)
    → continue (continue o λ r. pure (ended tfm_success r lr)) (λ e. pure e.r0) ≡ o
continue-r0 (done r m) lr = refl
continue-r0 (stopped x) lr = refl

module _ (p : Platform) (sfns : Partitions) (code : ℕ → ℕ) (descriptor : ℕ → Option SfnReq) where
  handler-direct :
      (d : SfnReq) (lr : ℕ) (m : Machine)
      → on_process_stack lr ≡ true
      → (d.exc_num == exc_num_thread_mode) ≡ true
      → partition_request_svc_handler p sfns lr (some d) m ≡ sfn_request_function p sfns (some d) m
  unfolding partition_request_svc_handler sfn_request_function
  handler-direct d lr m stack thread =
      elim (Bool-cases (check_sfn_req_integrity (some d) == tfm_success)) [
        | inl ok ↦ rw (stack, ok, thread)
        | inr bad ↦ rw (stack, bad)
      ]

  -- At every isolation level, a veneer's request has the result and the effect of
  -- tfm_core_sfn_request_function on the descriptor: where it takes the SVC, provided that the
  -- instruction is the SVC of a request with the descriptor's address in r0, and that the exception
  -- came from the process stack of the secure side.
  pub partition_request-direct :
      (d : SfnReq) (a : SvcArgs) (lr : ℕ) (m : Machine)
      → descriptor a.r0 ≡ some d
      → svc_number p sfns code descriptor a ≡ svc_sfn_request
      → on_secure_stack lr ≡ true
      → on_process_stack lr ≡ true
      → partition_request p sfns code descriptor d a lr m ≡ sfn_request_function p sfns (some d) m
  unfolding partition_request svc_handler_main svc_dispatch
  partition_request-direct d a lr m at svc secure stack =
      elim (Bool-cases (not (p.tfm_lvl == 1) && d.exc_num == exc_num_thread_mode)) [
        | inr direct ↦ rw direct refl
        | inl svc_taken ↦
            rw (svc_taken, secure, svc, at)
              (continue-r0 (partition_request_svc_handler p sfns lr (some d) m) lr
                ∙ handler-direct d lr m stack (second _ _ svc_taken))
      ]
    where
      second : (x y : Bool) → (x && y) ≡ true → y ≡ true
      second true y h = h
      second false y h = cc h
