-- ===== src/Tests/Updates.antt =====
-- The theorems on the flash file system, on the empty one.
use tfm_demo.Prelude.{ℕ, ◌≡◌, ◌↔◌, refl, arith}
use tfm_demo.Sst.Utils.{SstErr}
use tfm_demo.Store.Effects.{Header, Storage}
use tfm_demo.Store.Flash.{Reply}
use tfm_demo.Store.Validate.{latest_meta_block, validate_object_meta}
use tfm_demo.Store.Commit.{next_swap_count}
use tfm_demo.Store.Create.{stage_creation, object_create}
use tfm_demo.Store.Prepare.{core_prepare}
use tfm_demo.Store.Ends.{Ends, Anything}
use tfm_demo.Store.Touched.{Broken}
use tfm_demo.Store.Kept.{OldKept}
use tfm_demo.Store.CreateLaws.{IsObjectCreated, NeverTorn, Why, object_create-IsObjectCreated}
use tfm_demo.Store.PrepareLaws.{IsRecovered, core_prepare-IsRecovered, stage_creation-IsRecovered}
use tfm_demo.Store.Recovery.{latest_meta_block-follows}
use tfm_demo.Store.ValidateLaws.{IsEntry, validate_object_meta_iff}
use tfm_demo.Store.Delete.{stage_deletion}
use tfm_demo.Store.Read.{object_read}
use tfm_demo.Store.Quiet.{IsQuiet}
use tfm_demo.Store.ReadLaws.{IsContents, IsNotRead, object_read-IsContents}
use tfm_demo.Store.DeleteLaws.{IsDataBlank, stage_deletion-IsDataBlank}
use tfm_demo.Tests.Flash.{
  perfect, until, flash_with-IsFlash, occupied, occupied-IsReady, occupied-IsElsewhere, stored,
  fresh, fresh-IsReady,
}

object_create-IsObjectCreated_example :
    Ends
      (object_create perfect 5 20 fresh)
      (λ _.
        IsObjectCreated perfect
          (flash_with-IsFlash (λ t. Reply.ok))
          fresh
          fresh-IsReady
          5
          20
          (omega arith)
          (omega arith))
      (λ now.
        NeverTorn perfect
          (flash_with-IsFlash (λ t. Reply.ok))
          fresh
          fresh-IsReady
          5
          20
          (omega arith)
          (omega arith)
          now
        × Why perfect
            (flash_with-IsFlash (λ t. Reply.ok))
            fresh
            fresh-IsReady
            5
            20
            (omega arith)
            (omega arith))
object_create-IsObjectCreated_example =
    object_create-IsObjectCreated perfect (flash_with-IsFlash (λ t. Reply.ok)) fresh fresh-IsReady 5
      20 (omega arith) (omega arith)

core_prepare-IsRecovered_example :
    Ends
      (core_prepare perfect fresh)
      (λ _. IsRecovered perfect (flash_with-IsFlash (λ t. Reply.ok)) fresh fresh-IsReady)
      (λ s'. OldKept fresh s' × Broken perfect)
core_prepare-IsRecovered_example =
    core_prepare-IsRecovered perfect (flash_with-IsFlash (λ t. Reply.ok)) fresh fresh-IsReady fresh
      (λ x h. refl)

-- The power fails at request 12, among the writes.
stage_creation-IsRecovered_example :
    Ends
      (stage_creation (until 12) 5 20 fresh)
      (λ _ s. Unit {0})
      (λ s.
        (booted : Storage)
        → booted.flash ≡ s.flash
        → Ends
            (core_prepare (until 12) booted)
            (λ _. IsRecovered (until 12) (flash_with-IsFlash _) fresh fresh-IsReady)
            (λ s'. OldKept fresh s' × Broken (until 12)))
stage_creation-IsRecovered_example =
    stage_creation-IsRecovered (until 12) (flash_with-IsFlash _) fresh fresh-IsReady 5 20
      (omega arith) (omega arith)

abbrev header_with : ℕ → Header
header_with count = record {
  crypto = λ k. 0;
  scratch_idx = 2;
  fs_version = 1;
  active_swap_count = count;
}

latest_meta_block-follows_example :
    ((0 ≡ next_swap_count 254 → latest_meta_block (header_with 254) (header_with 0) ≡ 1)
      × (254 ≡ next_swap_count 0 → latest_meta_block (header_with 254) (header_with 0) ≡ 0))
latest_meta_block-follows_example =
    latest_meta_block-follows (header_with 254) (header_with 0) (omega arith) (omega arith)

validate_object_meta_iff_example : (validate_object_meta stored ≡ SstErr.success) ↔ IsEntry stored
validate_object_meta_iff_example = validate_object_meta_iff stored (omega arith) (omega arith)

stage_deletion-IsDataBlank_example :
    Ends
      (stage_deletion perfect 5 occupied)
      (λ _. IsDataBlank perfect (flash_with-IsFlash _) occupied occupied-IsReady)
      Anything
stage_deletion-IsDataBlank_example =
    stage_deletion-IsDataBlank perfect (flash_with-IsFlash _) occupied occupied-IsReady 5
      occupied-IsElsewhere

object_read-IsContents_example :
    Ends
      (object_read perfect 5 0 2 occupied)
      (λ b s.
        IsQuiet occupied s
        × IsContents perfect (flash_with-IsFlash _) occupied occupied-IsReady.apart 5 0 2 b)
      (IsNotRead perfect (flash_with-IsFlash _) occupied occupied-IsReady.apart 5 0 2)
object_read-IsContents_example =
    object_read-IsContents perfect (flash_with-IsFlash _) occupied occupied-IsReady.apart 5 0 2
      (omega arith) (omega arith)
