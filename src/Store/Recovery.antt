-- ===== src/Store/Recovery.antt =====
-- Preparing the file system after a stop.
use tfm_demo.Prelude.{some, ◌<◌, ◌≡◌, ◌≢◌, arith}
use tfm_demo.Store.Layout.{flash_default_val, supported_version}
use tfm_demo.Store.Effects.{Header}
use tfm_demo.Store.Validate.{
  validate_header_meta, validate_swap_count, validate_fs_version, latest_meta_block,
}
use tfm_demo.Store.Commit.{next_swap_count}
use tfm_demo.Store.Prepare.{choose_meta_block}

-- Which of two headers is valid.
abbrev pub IsValid : Header → Type 0
IsValid h = (h.fs_version ≡ supported_version) × (h.active_swap_count ≢ flash_default_val)

-- A header whose swap count is erased is not chosen.
pub choose_meta_block-erased1 :
    (meta0 meta1 : Header)
    → IsValid meta0
    → meta1.active_swap_count ≡ flash_default_val
    → choose_meta_block meta0 meta1 ≡ some 0
unfolding choose_meta_block validate_header_meta validate_swap_count validate_fs_version
choose_meta_block-erased1 meta0 meta1 v e = ground (arith, v.0, v.1)

pub choose_meta_block-erased0 :
    (meta0 meta1 : Header)
    → IsValid meta1
    → meta0.active_swap_count ≡ flash_default_val
    → choose_meta_block meta0 meta1 ≡ some 1
unfolding choose_meta_block validate_header_meta validate_swap_count validate_fs_version
choose_meta_block-erased0 meta0 meta1 v e = ground (arith, v.0, v.1)

-- Of two headers whose swap counts follow one another, neither being that of an erased byte, the
-- later one is the latest, on either side of the roll-over.
pub latest_meta_block-follows :
    (meta0 meta1 : Header)
    → meta0.active_swap_count < flash_default_val
    → meta1.active_swap_count < flash_default_val
    → ((meta1.active_swap_count ≡ next_swap_count meta0.active_swap_count
          → latest_meta_block meta0 meta1 ≡ 1)
        × (meta0.active_swap_count ≡ next_swap_count meta1.active_swap_count
            → latest_meta_block meta0 meta1 ≡ 0))
unfolding latest_meta_block next_swap_count validate_swap_count
latest_meta_block-follows meta0 meta1 a b =
    (λ e. ground (arith, e, a, b), λ e. ground (arith, e, a, b))
