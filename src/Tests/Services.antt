-- ===== src/Tests/Services.antt =====
-- The theorems on the asset manager, on the client's way to it and on the lock of the non-secure side,
-- on sample values.
use tfm_demo.Prelude.{ℕ, ◌≡◌, ◌⊎◌, refl, true, false, some, arith}
use tfm_demo.Machine.{pure}
use tfm_demo.Sst.Policy.{AssetPolicy}
use tfm_demo.Sst.Assets.{asset_perms, asset_perms_modes}
use tfm_demo.Store.Ends.{Ends as StoreEnds, Anything}
use tfm_demo.Store.Flash.{Reply}
use tfm_demo.Store.Create.{object_create}
use tfm_demo.Store.Oversize.{IsLost, object_create-IsLost}
use tfm_demo.Manager.World.{World}
use tfm_demo.Manager.Access.{Tables, Core}
use tfm_demo.Manager.Operations.{am_write}
use tfm_demo.Manager.Serve.{serve, read, needed}
use tfm_demo.Manager.Permission.{IsRefused, IsEntitled, serve-IsEntitled}
use tfm_demo.Manager.Memory.{Ends, Same}
use tfm_demo.Manager.OnCore.{core_of, core_of-IsCore, WritesAdmitted, serve-WritesAdmitted}
use tfm_demo.Manager.Bounds.{MayWrite, am_write-MayWrite}
use tfm_demo.Client.Api.{Call, sst_read, Locals, svc_args, packed}
use tfm_demo.Client.NsLock.{
  NsLock, at_reset, at_phase, Reach, here, next, Step, start_call, start_create, start_end, acquire,
  IsInside, Reach-Excludes, init_called, init_creates, init_ends, admits, waiting, inside,
}
use tfm_demo.SecureApi.Svc.{SvcArgs, svc_number, partition_request}
use tfm_demo.SecureApi.SvcLaws.{partition_request-direct}
use tfm_demo.SecureApi.Sfn.{Partitions, sfn_request_function}
use tfm_demo.Tests.Sample.{at_level, in_call, request}
use tfm_demo.Tests.Flash.{perfect, flash_with-IsFlash, fresh, fresh-IsReady}

abbrev tables : Tables
tables = record { perms = asset_perms; modes = asset_perms_modes }

abbrev locals : Locals
locals = record { s_token = 80; s_data = 100 }

-- The caller of the storage partition is not secure.
abbrev core : Core
core = core_of (at_level 2) in_call

abbrev call : Call
call = sst_read 5 16 0 805331000

-- A vector at address 100: 16 bytes at an address of the scratch area.
abbrev world : World
world = record { ram = packed locals 0 0 call (λ x. 0); storage = fresh }

serve-IsEntitled_example :
    IsRefused (serve perfect core tables 12 5 (read 100) world) world
    ⊎ ((e : AssetPolicy) × IsEntitled perfect core tables 12 5 (needed (read 100)) e)
serve-IsEntitled_example = serve-IsEntitled perfect core tables 12 5 (read 100) world

serve-WritesAdmitted_example :
    Ends
      (serve perfect core tables 12 5 (read 100) world)
      (λ _.
        WritesAdmitted perfect
          (at_level 2)
          in_call
          core
          (core_of-IsCore (at_level 2) in_call (omega arith) (omega arith))
          tables
          12
          5
          world)
      (Same world)
serve-WritesAdmitted_example =
    serve-WritesAdmitted perfect (at_level 2) in_call core
      (core_of-IsCore (at_level 2) in_call (omega arith) (omega arith)) tables 12 5 (read 100) world
      (λ h. absurd (omega (arith, h))) (omega arith) (omega arith) (omega arith)

am_write-MayWrite_example :
    IsRefused (am_write perfect core tables 12 5 100 world) world
    ⊎ ((e : AssetPolicy) × MayWrite perfect core tables 12 5 100 world e)
am_write-MayWrite_example = am_write-MayWrite perfect core tables 12 5 100 world

-- The certificate of 2048 bytes, with its header.
object_create-IsLost_example :
    StoreEnds (object_create perfect 10 2096 fresh) (λ _. IsLost perfect fresh 10 2096) Anything
object_create-IsLost_example =
    object_create-IsLost perfect (flash_with-IsFlash (λ t. Reply.ok)) fresh fresh-IsReady 10 2096
      (omega arith) (omega arith) (λ h. absurd (omega (arith, h))) (omega arith)

-- The lock is initialised, and thread 1 has the mutex.
abbrev one_inside : NsLock
one_inside =
    record (at_phase 1 (inside (svc_args locals call)) (
      at_phase 1 (waiting (svc_args locals call))
        (init_ends (init_creates true (init_called at_reset).1)).1)) { owner = some 1 }

one_inside-Reach : Reach one_inside
unfolding init_called init_creates init_ends admits svc_args
one_inside-Reach =
    next
      (next
        (next (next (next here (start_call at_reset refl)) (start_create true _ refl))
          (start_end _ refl))
        (Step.request 1 (svc_args locals call) _ refl refl))
      (acquire 1 (svc_args locals call) _ refl refl refl)

Reach-Excludes_example :
    (one_inside.mutex ≡ true → (t u : ℕ) → IsInside one_inside t → IsInside one_inside u → t ≡ u)
    × (one_inside.init ≡ false → (t : ℕ) → ¬ (IsInside one_inside t))
Reach-Excludes_example = Reach-Excludes one_inside one_inside-Reach

abbrev sfns : Partitions
sfns = record { call = λ f a. pure 0; exc_return = pure 0 }

abbrev svc_ctx : SvcArgs
svc_ctx = record { r0 = 4660; r1 = 0; r2 = 0; return_address = 4096 }

partition_request-direct_example :
    partition_request
      (at_level 2)
      sfns
      (λ x. 0)
      (λ a. some (request 256 0))
      (request 256 0)
      svc_ctx
      68
      in_call
    ≡ sfn_request_function (at_level 2) sfns (some (request 256 0)) in_call
unfolding svc_number
partition_request-direct_example =
    partition_request-direct (at_level 2) sfns (λ x. 0) (λ a. some (request 256 0)) (request 256 0)
      svc_ctx 68 in_call refl refl refl refl
