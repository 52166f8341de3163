-- ===== src/Osada/Table/Create.antt =====
-- create_dir and create_node: what they write, and that search_node finds it.
use so_unoficial.Prelude.{
  update, ℕ, ◌^◌, ◌≤◌, ◌<◌, ◌≡◌, ◌≢◌, inl, inr, refl, ap, true, false, List, ◌==◌, if◌then◌else◌,
  length, arith, Bool-cases, bytes_eq_refl, ==_refl,
}
use so_unoficial.Osada.State.{
  minus, osada_enoent, osada_enospc, osada_filename_length, file_blocks_mount, end_of_file,
  FileState, OsadaFile, regular, LockAction, Volume, Env, uninit_bytes, length-uninit_bytes,
}
use so_unoficial.Osada.Names.Laws.{IsText, get_fname-set_fname}
use so_unoficial.Osada.Table.{
  is_deleted, is_node, search_node, get_free_file_block, fresh_file, create, create_node,
}
use so_unoficial.Osada.Table.Search.{is_free, search_node-IsFirst, get_free_file_block-IsFirst}

-- The file block that create fills in is a node of the name and directory it was made for.
fresh_file-is_node :
    (state : FileState) (first_block : ℕ) (name : List ℕ) (pb_pos : ℕ) (env : Env)
    → is_deleted state ≡ false
    → length name ≤ osada_filename_length
    → IsText name
    → pb_pos < 2 ^ 16
    → is_node name pb_pos (fresh_file state first_block name pb_pos env) ≡ true
unfolding fresh_file
fresh_file-is_node state first_block name pb_pos env live fits text small = ground (
  arith,
  get_fname-set_fname (uninit_bytes env 17) name (length-uninit_bytes env 17) fits text,
  bytes_eq_refl name,
)

module _ {Bits : Type 0} where
  -- What `create` did to the file table.
  pub record Created (v : Volume Bits) (state : FileState) (first_block : ℕ) (env : Env)
      (name : List ℕ) (pb_pos : ℕ) (r : ℕ × Volume Bits) : Type 0 where
    pub in_table : r.0 < file_blocks_mount
    pub was_free : is_free v.file_table pb_pos r.0 ≡ true
    pub written :
        r.1.file_table ≡ update v.file_table r.0 (fresh_file state first_block name pb_pos env)

  pub create-Created :
      (v : Volume Bits) (state : FileState) (first_block : ℕ) (env : Env) (name : List ℕ)
      (pb_pos : ℕ)
      → (create state first_block env name pb_pos v).0 ≢ minus osada_enospc
      → Created v state first_block env name pb_pos (create state first_block env name pb_pos v)
  unfolding create get_free_file_block
  create-Created v state first_block env name pb_pos ne =
      elim (get_free_file_block-IsFirst pb_pos v) [
        | inl full ↦ ground arith
        | inr hit ↦ ground arith
      ]

  -- A file block written at a free position is found by a search that found nothing before.
  search_node-update :
      (v w : Volume Bits) (name : List ℕ) (pb_pos pos : ℕ) (lock : LockAction) (f : OsadaFile)
      → (search_node name pb_pos lock pb_pos v).0 ≡ minus osada_enoent
      → w.file_table ≡ update v.file_table pos f
      → pos < file_blocks_mount
      → pos ≢ pb_pos
      → is_node name pb_pos f ≡ true
      → (search_node name pb_pos lock pb_pos w).0 ≡ pos
  search_node-update v w name pb_pos pos lock f absent written small other node =
      elim (search_node-IsFirst name pb_pos lock pb_pos v) [
        | inr (lo, hi, hit, before) ↦ absurd (omega arith)
        | inl (none_r, none_of) ↦ elim (search_node-IsFirst name pb_pos lock pb_pos w) [
          | inl (gone, none_w) ↦
              let miss = none_w pos in
              let found : is_node name pb_pos (w.file_table pos) ≡ true =
                rw (at_pos pos) (ground arith) in
              absurd (ground arith)
          | inr (lo, hi, hit, before) ↦
              elim (Bool-cases (pos == (search_node name pb_pos lock pb_pos w).0)) [
                | inl same ↦ ground arith
                | inr differ ↦
                    let miss = none_of (search_node name pb_pos lock pb_pos w).0 in
                    let kept : w.file_table (search_node name pb_pos lock pb_pos w).0
                        ≡ v.file_table (search_node name pb_pos lock pb_pos w).0 =
                      rw (at_pos (search_node name pb_pos lock pb_pos w).0) (rw differ) in
                    absurd (ground arith)
              ]
        ]
      ]
    where
      at_pos : (j : ℕ) → w.file_table j ≡ update v.file_table pos f j
      at_pos j = ap (λ t. t j) written

  Created-finds :
      (v : Volume Bits) (state : FileState) (first_block : ℕ) (env : Env) (name : List ℕ)
      (pb_pos : ℕ) (lock : LockAction) (r : ℕ × Volume Bits)
      → (search_node name pb_pos lock pb_pos v).0 ≡ minus osada_enoent
      → length name ≤ osada_filename_length
      → IsText name
      → pb_pos < 2 ^ 16
      → is_deleted state ≡ false
      → Created v state first_block env name pb_pos r
      → (is_deleted (v.file_table r.0).state ≡ true)
        × ((r.1.file_table r.0).state ≡ state)
        × ((r.1.file_table r.0).file_size ≡ 0)
        × ((r.1.file_table r.0).first_block ≡ first_block)
        × ((j : ℕ) → r.1.file_table j ≡ (if r.0 == j then r.1.file_table r.0 else v.file_table j))
        × ((search_node name pb_pos lock pb_pos r.1).0 ≡ r.0)
  unfolding fresh_file
  Created-finds v state first_block env name pb_pos lock r absent fits text small live c =
      let here : r.1.file_table r.0 ≡ fresh_file state first_block name pb_pos env =
        rw (at_pos r.0, ==_refl r.0) in
      (
        ground arith,
        ground arith,
        ground arith,
        ground arith,
        λ j. rw (at_pos j, here) refl,
        search_node-update v r.1 name pb_pos r.0 lock (fresh_file state first_block name pb_pos env)
            absent c.written c.in_table (ground arith)
            (fresh_file-is_node state first_block name pb_pos env live fits text small),
      )
    where
      at_pos :
          (j : ℕ)
          → r.1.file_table j
            ≡ update v.file_table r.0 (fresh_file state first_block name pb_pos env) j
      at_pos j = ap (λ t. t j) c.written

  -- Where a search of a directory finds no node of a name, the name is a C string of at most 17 bytes and
  -- create_node does not answer -OSADA_ENOSPC, the position it answers was DELETED before, it holds a
  -- REGULAR file of size 0 and no block afterwards, no other position changes, and searching the
  -- directory for the name then finds it.
  pub create_node-search_node :
      (v : Volume Bits) (env : Env) (name : List ℕ) (pb_pos : ℕ) (lock : LockAction)
      → (search_node name pb_pos lock pb_pos v).0 ≡ minus osada_enoent
      → length name ≤ osada_filename_length
      → IsText name
      → pb_pos < 2 ^ 16
      → (create_node env name pb_pos v).0 ≢ minus osada_enospc
      → let (pos, w) = create_node env name pb_pos v in
        (is_deleted (v.file_table pos).state ≡ true)
        × ((w.file_table pos).state ≡ regular)
        × ((w.file_table pos).file_size ≡ 0)
        × ((w.file_table pos).first_block ≡ end_of_file)
        × ((j : ℕ) → w.file_table j ≡ (if pos == j then w.file_table pos else v.file_table j))
        × ((search_node name pb_pos lock pb_pos w).0 ≡ pos)
  unfolding create_node
  create_node-search_node v env name pb_pos lock absent fits text small room =
      Created-finds v regular end_of_file env name pb_pos lock (create_node env name pb_pos v)
        absent fits text small refl (create-Created v regular end_of_file env name pb_pos room)
