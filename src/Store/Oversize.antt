-- ===== src/Store/Oversize.antt =====
-- An object larger than SST_MAX_OBJECT_SIZE: its entry is written, and never accepted again.
use tfm_demo.Prelude.{
  ℕ, zero, suc, ◌+◌, ◌<◌, ◌≤◌, ◌≡◌, ◌≢◌, refl, sym, ap, ◌∙◌, arith, inl, inr, Bool-cases, true,
  ◌==◌, word, subst, if_eq,
}
use native.Mathlib.Decide.{ℕ_discrete}
use tfm_demo.Sst.Utils.{SstErr, validate_uuid, invalid_uuid}
use tfm_demo.Store.Layout.{num_assets, object_meta_offset, assetmeta_size, max_object_size}
use tfm_demo.Store.Effects.{Storage}
use tfm_demo.Store.Flash.{Driver, IsFlash}
use tfm_demo.Store.Meta.{AssetMeta, to_assetmeta}
use tfm_demo.Store.Validate.{succeeded, validate_object_meta}
use tfm_demo.Store.Tables.{Reserved, read_object_meta, object_idx_loop, get_object_idx}
use tfm_demo.Store.Create.{object_create}
use tfm_demo.Store.Created.{created_entry}
use tfm_demo.Store.Ends.{Ends, Ends-bind, Ends-weaken, Ends-renamed, Ends-any, Anything}
use tfm_demo.Store.Entries.{to_assetmeta_agree}
use tfm_demo.Store.Staging.{Ends-check}
use tfm_demo.Store.Staged.{HasMetaBlocks, active_of, object_entry}
use tfm_demo.Store.Quiet.{IsQuiet}
use tfm_demo.Store.EntryReads.{read_active-Agrees, read_object_meta-Entry}
use tfm_demo.Store.Ready.{IsReady}
use tfm_demo.Store.CreateLaws.{IsObjectCreated, object_create-IsObjectCreated}

success_of : (e : SstErr) → succeeded e ≡ true → e ≡ SstErr.success
success_of e h = ground arith

created_entry-rejected :
    (r : Reserved) (uuid size : ℕ)
    → uuid ≢ invalid_uuid
    → max_object_size < size
    → validate_object_meta (created_entry r uuid size) ≢ SstErr.success
unfolding validate_object_meta validate_uuid
created_entry-rejected r uuid size ne big h = ground arith

module _ (d : Driver) (laws : IsFlash d) (now : Storage) (apart : HasMetaBlocks now) (bad : ℕ)
    (there : bad < num_assets)
    (rejected : validate_object_meta (object_entry (active_of now) bad) ≢ SstErr.success) where
  read_bad : (s : Storage) → IsQuiet now s → Ends (read_object_meta d bad s) (λ _ _. ⊥) Anything
  unfolding read_object_meta
  read_bad s q =
      Ends-bind _ _
        (Ends-any _ (
          read_active-Agrees d laws now apart _ (object_meta_offset bad) assetmeta_size s q.active
            (omega arith) q))
        λ b s1 r.
          Ends-bind _ _
            (Ends-check {P = λ _ _. ⊥} _ s1
              (λ e. rejected (
                sym (ap validate_object_meta (to_assetmeta_agree _ _ r.1))
                ∙ success_of (validate_object_meta (to_assetmeta b)) e))
              (λ ne. tt))
            λ _ s2 p. absurd p

  never_found :
      (uuid k rounds : ℕ) (s : Storage)
      → k + rounds ≡ num_assets
      → k ≤ bad
      → ((j : ℕ) → j < bad → (object_entry (active_of now) j).unique_id ≢ uuid)
      → IsQuiet now s
      → Ends (object_idx_loop d uuid k rounds s) (λ _ _. ⊥) Anything
  unfolding object_idx_loop
  never_found uuid k zero s e le before q = record { holds = tt }
  never_found uuid k (suc rounds) s e le before q = elim (ℕ_discrete k bad) [
    | yes same ↦
        Ends-bind _ _
          (Ends-renamed _ _ (
            subst (λ (n : ℕ). Ends (read_object_meta d n s) (λ _ _. ⊥) Anything) (sym same)
              (read_bad s q)))
          λ m s1 p. absurd p
    | no other ↦
        Ends-bind _ _
          (Ends-renamed _ _
            (Ends-any _ (read_object_meta-Entry d laws now apart k s (omega arith) q)))
          λ m s1 r.
            let id : m.unique_id ≡ (object_entry (active_of now) k).unique_id =
              ap (λ (x : AssetMeta). x.unique_id) r.1 in
            elim (Bool-cases (m.unique_id == uuid)) [
              | inl found ↦
                  absurd (before k (omega (arith, other)) (sym id ∙ is_eq m.unique_id found))
              | inr not_found ↦ rw not_found (
                  never_found uuid (k + 1) rounds s1 (omega arith) (omega (arith, other)) before
                    r.0)
            ]
  ]
    where
      is_eq : (n : ℕ) → (n == uuid) ≡ true → n ≡ uuid
      is_eq n h = ground arith

-- A free entry has got the object, and is not accepted; from this entry on no id is found: a search for
-- one that does not stand before it returns an error.
pub record IsLost (d : Driver) (before : Storage) (uuid size : ℕ) (now : Storage) : Type 0 where
  pub bad : ℕ
  pub there : bad < num_assets
  pub free : (object_entry (active_of before) bad).unique_id ≡ invalid_uuid
  pub id : (object_entry (active_of now) bad).unique_id ≡ uuid
  pub max_size : (object_entry (active_of now) bad).max_size ≡ size
  pub rejected : validate_object_meta (object_entry (active_of now) bad) ≢ SstErr.success
  pub search :
      (other : ℕ)
      → ((j : ℕ) → j < bad → (object_entry (active_of now) j).unique_id ≢ other)
      → Ends (get_object_idx d other now) (λ _ _. ⊥) Anything

-- In a ready file system, for a 32-bit id that is not 0 and a 32-bit size above the maximal object
-- size: where creating the object returns, an entry that was free has the id and the size and is not
-- accepted, and no search for an id that does not stand in an entry before it returns one.
pub object_create-IsLost :
    (d : Driver) (laws : IsFlash d) (before : Storage) (ready : IsReady before) (uuid size : ℕ)
    → uuid < word
    → size < word
    → uuid ≢ invalid_uuid
    → max_object_size < size
    → Ends (object_create d uuid size before) (λ _. IsLost d before uuid size) Anything
unfolding get_object_idx
object_create-IsLost d laws before ready uuid size uuid32 size32 ne big =
    Ends-weaken _
      (Ends-any _ (object_create-IsObjectCreated d laws before ready uuid size uuid32 size32))
      λ _ now c. lost now c
  where
    now_entry :
        (now : Storage)
        → (c : IsObjectCreated d laws before ready uuid size uuid32 size32 now)
        → object_entry (active_of now) c.created.entry ≡ created_entry c.created.place uuid size
    now_entry now c =
        c.created.tables.objects c.created.entry c.created.free.0
        ∙ if_eq {k = c.created.entry} {j = c.created.entry} _ _ refl

    lost :
        (now : Storage)
        → IsObjectCreated d laws before ready uuid size uuid32 size32 now
        → IsLost d before uuid size now
    lost now c =
        let e = c.created.entry in
        let lt : e < num_assets = c.created.free.0 in
        let no : validate_object_meta (object_entry (active_of now) e) ≢ SstErr.success = λ h.
          created_entry-rejected c.created.place uuid size ne big
            (sym (ap validate_object_meta (now_entry now c)) ∙ h) in
        record {
          bad = e;
          there = lt;
          free = c.created.free.1;
          id = ap (λ (x : AssetMeta). x.unique_id) (now_entry now c);
          max_size = ap (λ (x : AssetMeta). x.max_size) (now_entry now c);
          rejected = no;
          search = λ u h.
              never_found d laws now c.ready_again.apart e lt no u 0 num_assets now refl
                (omega arith) h
                (record { flash = refl; active = refl; scratch = refl; header = refl });
        }
