-- ===== src/Store/Staged.antt =====
-- What writing the scratch metadata block from behind its header leaves alone.
use tfm_demo.Prelude.{
  ◌-◌, leb, ltb, ◌&&◌, if◌then◌else◌, ℕ, ◌+◌, ◌≤◌, ◌<◌, ◌≡◌, ◌⊎◌, refl, sym, ap, ◌∙◌, arith, inl,
  inr,
}
use native.Mathlib.Decide.{dec_lt}
use tfm_demo.AuditLog.Buffer.{Bytes}
use tfm_demo.Store.Layout.{
  block_size, header_size, flash_default_val, num_active_dblocks, num_assets, block_meta_offset,
  object_meta_offset,
}
use tfm_demo.Store.Effects.{Storage}
use tfm_demo.Store.Flash.{Driver, IsFlash, Reply, phys_address, flash_write, request, Works}
use tfm_demo.Store.Meta.{BlockMetadata, AssetMeta, to_block_metadata, to_assetmeta}
use tfm_demo.Store.Validate.{validate_block_meta, validate_object_meta}
use tfm_demo.Sst.Utils.{SstErr}
use tfm_demo.Store.Ends.{Ends, Ends-answer}

-- The running context is the same, and so is every byte that is not behind the header of the
-- scratch metadata block.
pub record IsStaged (before now : Storage) : Type 0 where
  pub active : now.active_metablock ≡ before.active_metablock
  pub scratch : now.scratch_metablock ≡ before.scratch_metablock
  pub header : now.meta_block_header ≡ before.meta_block_header
  pub kept :
      (x : ℕ)
      → (x < phys_address before.scratch_metablock header_size)
        ⊎ (phys_address before.scratch_metablock block_size ≤ x)
      → now.flash x ≡ before.flash x

pub IsStaged-refl : (s : Storage) → IsStaged s s
IsStaged-refl s = record { active = refl; scratch = refl; header = refl; kept = λ x h. refl }

-- The bytes of a metadata block.
abbrev pub block_of : Storage → ℕ → Bytes
block_of s block o = s.flash (phys_address block o)

-- The scratch metadata block holds `contents` behind its header.
abbrev pub Holds : Storage → Bytes → Storage → Type 0
Holds before contents now =
    (o : ℕ)
    → header_size ≤ o
    → o < block_size
    → block_of now before.scratch_metablock o ≡ contents o

pub Range-cases :
    (offset size o : ℕ)
    → ((offset ≤ o) × (o < offset + size)) ⊎ ((o < offset) ⊎ (offset + size ≤ o))
Range-cases offset size o = elim (dec_lt o offset) [
  | yes a ↦ inr (inl a)
  | no a ↦ elim (dec_lt o (offset + size)) [
    | yes b ↦ inl (omega arith, b)
    | no b ↦ inr (inr (omega arith))
  ]
]

-- `contents` with `size` bytes at `offset` replaced by those of `b` at the same place.
unfoldable pub patch : ℕ → ℕ → Bytes → Bytes → Bytes
patch offset size b contents o = if leb offset o && ltb o (offset + size) then b o else contents o

pub patch-inside :
    (offset size : ℕ) (b contents : Bytes) (o : ℕ)
    → offset ≤ o
    → o < offset + size
    → patch offset size b contents o ≡ b o
unfolding patch
patch-inside offset size b contents o lo hi = ground arith

pub patch-outside :
    (offset size : ℕ) (b contents : Bytes) (o : ℕ)
    → (o < offset) ⊎ (offset + size ≤ o)
    → patch offset size b contents o ≡ contents o
unfolding patch
patch-outside offset size b contents o h = ground arith

pub patch_agree :
    (offset size : ℕ) (b c contents : Bytes) (o : ℕ)
    → (offset ≤ o → o < offset + size → b o ≡ c o)
    → patch offset size b contents o ≡ patch offset size c contents o
patch_agree offset size b c contents o h = elim (Range-cases offset size o) [
  | inl (l, k) ↦
      patch-inside offset size b contents o l k
      ∙ h l k
      ∙ sym (patch-inside offset size c contents o l k)
  | inr out ↦
      patch-outside offset size b contents o out ∙ sym (patch-outside offset size c contents o out)
]

-- Equal from an offset on, for a number of bytes.
abbrev pub Agree : ℕ → ℕ → Bytes → Bytes → Type 0
Agree offset size b c = (o : ℕ) → offset ≤ o → o < offset + size → b o ≡ c o

-- Every byte is erased.
abbrev pub blank : Bytes
blank o = flash_default_val

abbrev pub Blank : ℕ → ℕ → Bytes → Type 0
Blank offset size contents = Agree offset size contents blank

pub Agree-patch_inside :
    (l n offset size : ℕ) (b contents : Bytes)
    → offset ≤ l
    → l + n ≤ offset + size
    → Agree l n (patch offset size b contents) b
Agree-patch_inside l n offset size b contents lo hi o a k =
    patch-inside offset size b contents o (omega arith) (omega arith)

pub Agree-patch_outside :
    (l n offset size : ℕ) (b contents e : Bytes)
    → (l + n ≤ offset) ⊎ (offset + size ≤ l)
    → Agree l n contents e
    → Agree l n (patch offset size b contents) e
Agree-patch_outside l n offset size b contents e (inl h) eq o a k =
    patch-outside offset size b contents o (inl (omega arith)) ∙ eq o a k
Agree-patch_outside l n offset size b contents e (inr h) eq o a k =
    patch-outside offset size b contents o (inr (omega arith)) ∙ eq o a k

-- Entry `lblock` of the table of blocks, and entry `idx` of the table of objects.
abbrev pub block_entry : Bytes → ℕ → BlockMetadata
block_entry b lblock = to_block_metadata (λ k. b (block_meta_offset lblock + k))

abbrev pub object_entry : Bytes → ℕ → AssetMeta
object_entry b idx = to_assetmeta (λ k. b (object_meta_offset idx + k))

-- The two metadata blocks are the active one and the scratch one.
abbrev pub HasMetaBlocks : Storage → Type 0
HasMetaBlocks s = s.active_metablock + s.scratch_metablock ≡ 1

-- Behind the header of the scratch block the contents are known.
pub record Stage (before : Storage) (contents : Bytes) (now : Storage) : Type 0 where
  pub staged : IsStaged before now
  pub holds : Holds before contents now

-- The tables in the block are such that each entry is accepted.
pub record HasValidTables (b : Bytes) : Type 0 where
  pub blocks :
      (k : ℕ) → k < num_active_dblocks → validate_block_meta (block_entry b k) ≡ SstErr.success
  pub objects : (k : ℕ) → k < num_assets → validate_object_meta (object_entry b k) ≡ SstErr.success

-- The active metadata block, which does not change.
abbrev pub active_of : Storage → Bytes
active_of s = block_of s s.active_metablock

-- The flash did not work, or the tables were not valid.
abbrev pub Faulty : Driver → Storage → Type 0
Faulty d before = Works d → ¬ HasValidTables (active_of before)

-- Where a step does not succeed: what it left, and why.
abbrev pub Fails : Driver → Storage → Storage → Type 0
Fails d before s = IsStaged before s × Faulty d before

module _ (d : Driver) (laws : IsFlash d) (before : Storage) (apart : HasMetaBlocks before) where
  pub write-Stage :
      (contents buff : Bytes) (addr offset size : ℕ) (s : Storage)
      → addr ≡ phys_address before.scratch_metablock offset
      → header_size ≤ offset
      → offset + size ≤ block_size
      → Blank offset size contents
      → Stage before contents s
      → Ends
          (flash_write d addr buff size s)
          (λ _. Stage before (patch offset size (λ o. buff (o - offset)) contents))
          (Fails d before)
  unfolding flash_write
  write-Stage contents buff addr offset size s place lo hi erased st =
      Ends-answer _ _ _ (λ e. record { staged = same; holds = now_holds e })
        (λ ne. (same, λ w v. ne (w.program_works _ _ _ _ _)))
    where
      flash' : Bytes
      flash' = d.program_data s.requests s.flash addr buff size

      outside :
          (x : ℕ)
          → (x < phys_address before.scratch_metablock header_size)
            ⊎ (phys_address before.scratch_metablock block_size ≤ x)
          → (x < addr) ⊎ (addr + size ≤ x)
      outside x (inl h) = inl (omega (arith, place))
      outside x (inr h) = inr (omega (arith, place))

      same : IsStaged before (request s flash')
      same = record {
        active = st.staged.active;
        scratch = st.staged.scratch;
        header = st.staged.header;
        kept = λ x h. laws.programs_only _ _ _ _ _ x (outside x h) ∙ st.staged.kept x h;
      }

      elsewhere :
          (o : ℕ)
          → o < block_size
          → (o < offset) ⊎ (offset + size ≤ o)
          → (phys_address before.scratch_metablock o < addr)
            ⊎ (addr + size ≤ phys_address before.scratch_metablock o)
      elsewhere o h (inl a) = inl (omega (arith, place))
      elsewhere o h (inr b) = inr (omega (arith, place))

      now_holds :
          d.program_reply s.requests s.flash addr buff size ≡ Reply.ok
          → Holds before (patch offset size (λ o. buff (o - offset)) contents) (request s flash')
      now_holds e o l h = elim (Range-cases offset size o) [
        | inl (a, b) ↦
            ap flash' (omega (arith, place))
            ∙ laws.programs _ _ _ _ _ (o - offset) e (omega arith)
                (ap s.flash (omega (arith, place)) ∙ st.holds o l h ∙ erased o a b)
            ∙ sym (patch-inside offset size _ contents o a b)
        | inr out ↦
            laws.programs_only _ _ _ _ _ _ (elsewhere o h out)
            ∙ st.holds o l h
            ∙ sym (patch-outside offset size _ contents o out)
      ]
