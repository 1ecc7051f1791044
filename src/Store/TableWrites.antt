-- ===== src/Store/TableWrites.antt =====
-- What the steps of a deletion write: the tables and the scratch block of the data only.
use tfm_demo.Prelude.{
  ℕ, zero, suc, Option, none, some, ◌+◌, ◌*◌, ◌%◌, ◌==◌, ◌<◌, ◌≡◌, ltb, not, arith, inl, inr, word,
  sub32, Bool-cases,
}
use tfm_demo.Store.Layout.{
  header_size, block_metadata_size, num_assets, block_meta_offset, object_meta_offset,
}
use tfm_demo.Store.Effects.{Storage}
use tfm_demo.Store.Flash.{Driver, IsFlash}
use tfm_demo.Store.Meta.{AssetMeta, BlockMetadata}
use tfm_demo.Store.Tables.{read_block_metadata}
use tfm_demo.Store.Scratch.{
  mblock_update_scratch_object_meta, mblock_update_scratch_block_meta,
  mblock_copy_remaining_block_meta, copy_blocks_before,
}
use tfm_demo.Store.Delete.{Moves, put_object_meta, move_loop, is_behind}
use tfm_demo.Store.Ends.{
  Ends, Ends-bind, Ends-done, Ends-weaken, Ends-loosen, Ends-renamed, Ends-tried, Ends-when, IfSome,
}
use tfm_demo.Store.Ready.{IsReady}
use tfm_demo.Store.Quiet.{
  IsTablesOnly, IsTablesOnly-IsQuiet, read_object_meta-IsQuiet, read_block_metadata-IsQuiet,
  write-IsTablesOnly, move-IsTablesOnly,
}

module _ (d : Driver) (laws : IsFlash d) (before : Storage) (ready : IsReady before) where
  module _ (data_block : ℕ) where
    update_object-IsTablesOnly :
        (idx : ℕ) (m : AssetMeta) (s : Storage)
        → idx < num_assets
        → IsTablesOnly before data_block s
        → Ends
            (mblock_update_scratch_object_meta d idx m s)
            (λ _. IsTablesOnly before data_block)
            (IsTablesOnly before data_block)
    unfolding mblock_update_scratch_object_meta
    update_object-IsTablesOnly idx m s lt t =
        write-IsTablesOnly d laws before ready.apart data_block _ _ (object_meta_offset idx) 20 s
          (inl (t.scratch, omega arith, omega arith)) t

    pub update_block-IsTablesOnly :
        (lblock : ℕ) (m : BlockMetadata) (s : Storage)
        → lblock < 3
        → IsTablesOnly before data_block s
        → Ends
            (mblock_update_scratch_block_meta d lblock m s)
            (λ _. IsTablesOnly before data_block)
            (IsTablesOnly before data_block)
    unfolding mblock_update_scratch_block_meta
    update_block-IsTablesOnly lblock m s lt t =
        write-IsTablesOnly d laws before ready.apart data_block _ _ (block_meta_offset lblock) 12 s
          (inl (t.scratch, omega arith, omega arith)) t

    pub read_block-IsTablesOnly :
        (lblock : ℕ) (s : Storage)
        → IsTablesOnly before data_block s
        → Ends
            (read_block_metadata d lblock s)
            (λ _. IsTablesOnly before data_block)
            (IsTablesOnly before data_block)
    read_block-IsTablesOnly lblock s t =
        Ends-weaken _
          (Ends-loosen _ (read_block_metadata-IsQuiet d laws lblock s)
            λ s' q. IsTablesOnly-IsQuiet t q)
          λ _ s' q. IsTablesOnly-IsQuiet t q

    copy_before-IsTablesOnly :
        (dst src lblock : ℕ) (s : Storage)
        → dst ≡ before.scratch_metablock
        → 0 < lblock
        → lblock < 3
        → IsTablesOnly before data_block s
        → Ends
            (copy_blocks_before d dst src lblock s)
            (λ _. IsTablesOnly before data_block)
            (IsTablesOnly before data_block)
    unfolding copy_blocks_before
    copy_before-IsTablesOnly dst src lblock s to pos lt t =
        Ends-bind _ _ (Ends-renamed _ _ (read_block-IsTablesOnly 0 s t)) λ m s1 t1.
          Ends-bind _ _ (Ends-renamed _ _ (update_block-IsTablesOnly 0 _ s1 (omega arith) t1))
            λ _ s2 t2.
              Ends-when (ltb 0 (sub32 lblock 1 * block_metadata_size % word)) _ s2
                (λ h.
                  move-IsTablesOnly d laws before ready.apart data_block dst
                    (header_size + block_metadata_size) src _ _ s2
                    (inl (to, omega arith, omega arith)) t2)
                (λ h. t2)

    pub copy_blocks-IsTablesOnly :
        (lblock : ℕ) (s : Storage)
        → lblock < 3
        → IsTablesOnly before data_block s
        → Ends
            (mblock_copy_remaining_block_meta d lblock s)
            (λ _. IsTablesOnly before data_block)
            (IsTablesOnly before data_block)
    unfolding mblock_copy_remaining_block_meta
    copy_blocks-IsTablesOnly lblock s lt t =
        Ends-bind _ _
          (Ends-when (not (lblock == 0)) _ s
            (λ h. copy_before-IsTablesOnly _ _ lblock s t.scratch (ground (arith, h)) lt t)
            (λ h. t))
          λ _ s1 t1.
            move-IsTablesOnly d laws before ready.apart data_block _
              (block_meta_offset (lblock + 1)) _ _ _ s1 (inl (t.scratch, omega arith, omega arith))
              t1

    pub put_object-IsTablesOnly :
        (k : ℕ) (m : AssetMeta) (s : Storage)
        → k < num_assets
        → IsTablesOnly before data_block s
        → Ends
            (put_object_meta d k m s)
            (λ _. IsTablesOnly before data_block)
            (IsTablesOnly before data_block)
    unfolding put_object_meta
    put_object-IsTablesOnly k m s lt t =
        Ends-bind _ _ (Ends-tried _ (update_object-IsTablesOnly k m s lt t))
          λ o s1 h. Ends-done _ s1 (either o s1 h)
      where
        either :
            (o : Option (Unit {0})) (s1 : Storage)
            → IfSome (λ _. IsTablesOnly before data_block) (IsTablesOnly before data_block) o s1
            → IsTablesOnly before data_block s1
        either none s1 h = h
        either (some u) s1 h = h

    pub move_loop-IsTablesOnly :
        (del_idx : ℕ) (del : AssetMeta) (size : ℕ) (mv : Moves) (k rounds : ℕ) (s : Storage)
        → k + rounds ≡ num_assets
        → IsTablesOnly before data_block s
        → Ends
            (move_loop d del_idx del size mv k rounds s)
            (λ _. IsTablesOnly before data_block)
            (IsTablesOnly before data_block)
    unfolding move_loop
    move_loop-IsTablesOnly del_idx del size mv k zero s e t = record { holds = t }
    move_loop-IsTablesOnly del_idx del size mv k (suc rounds) s e t =
        let rest = λ (m : Moves) (s' : Storage) (t' : IsTablesOnly before data_block s').
          move_loop-IsTablesOnly del_idx del size m (k + 1) rounds s' (omega arith) t' in
        elim (Bool-cases (k == del_idx)) [
          | inl same ↦ rw same (rest mv s t)
          | inr other ↦ rw other (
              Ends-bind _ _
                (Ends-weaken _
                  (Ends-loosen _ (read_object_meta-IsQuiet d laws k s)
                    λ s' q. IsTablesOnly-IsQuiet t q)
                  λ _ s' q. IsTablesOnly-IsQuiet t q)
                λ m s1 t1. elim (Bool-cases (is_behind del.lblock del.data_index m)) [
                  | inl behind ↦ rw behind (
                      Ends-bind _ _ (put_object-IsTablesOnly k _ s1 (omega arith) t1)
                        λ _ s2 t2. rest _ s2 t2)
                  | inr before_it ↦ rw before_it (
                      Ends-bind _ _ (put_object-IsTablesOnly k _ s1 (omega arith) t1)
                        λ _ s2 t2. rest mv s2 t2)
                ])
        ]
