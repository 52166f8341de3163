-- ===== src/Osada/Node/Rename.antt =====
-- osada_rename where the last component of `to` does not exist.
use so_unoficial.Prelude.{
  c_string, ap, ◌∙◌, Bool, Bool-cases, inl, inr, [], ◌∷◌, ◌++◌, update, ℕ, ◌≡◌, ◌≤◌, ◌<◌, ◌^◌, ◌%◌,
  refl, true, false, List, ◌==◌, if◌then◌else◌, length, ltb, arith, bytes_eq_refl, ==_refl,
}
use so_unoficial.Osada.State.{
  osada_filename_length, osada_sexe, osada_enotdir, minus, root, lock_read, lock_write, Volume, Env,
  unlock,
}
use so_unoficial.Osada.Names.{tokens, set_fname}
use so_unoficial.Osada.Names.Laws.{IsText, get_fname-set_fname}
use so_unoficial.Osada.Table.{
  is_deleted, is_node, signal, search_dir, search_node, unlock_unless_root,
}
use so_unoficial.Osada.Table.Frame.{
  IsRelocked, IsRelocked-trans, search_node-IsRelocked, search_dir-IsRelocked,
  unlock_unless_root-IsRelocked,
}
use so_unoficial.Osada.Directory.{Walk, found, missing}
use so_unoficial.Osada.Reply.{reply, answer}
use so_unoficial.Osada.Node.{move_to, walk_from, osada_rename}
use so_unoficial.Osada.Node.Target.{Leads, IsNewName, Leads-small, rename_to_new}

module _ {Bits : Type 0} where
  abbrev end_of : Walk Bits → Volume Bits
  end_of (found pos w) = w
  end_of (missing w) = w

  -- Both ends of the loop.
  at_end :
      (nodes : List (List ℕ)) (none : Bool) (pos : ℕ) (v2 v4 v : Volume Bits)
      → IsRelocked v v2
      → IsRelocked v v4
      → IsRelocked v (
          end_of
            (elim nodes [ [] ↦ if none then missing v4 else found pos v4 | n ∷ ns ↦ missing v2 ]))
  at_end [] none pos v2 v4 v round last = ground arith
  at_end (n ∷ ns) none pos v2 v4 v round last = round

  walk_from-IsRelocked :
      (nodes : List (List ℕ)) (pb_pos : ℕ) (v : Volume Bits)
      → IsRelocked v (end_of (walk_from nodes pb_pos v))
  unfolding walk_from
  walk_from-IsRelocked [] pb_pos v = refl
  walk_from-IsRelocked (node ∷ nodes) pb_pos v =
      let v1 = (search_dir node pb_pos lock_read pb_pos v).1 in
      let v2 = unlock_unless_root pb_pos v1 in
      let v3 = (search_node node pb_pos lock_write pb_pos v1).1 in
      let found_dir = search_dir-IsRelocked node pb_pos lock_read pb_pos v in
      let round = IsRelocked-trans v v1 v2 found_dir (unlock_unless_root-IsRelocked pb_pos v1) in
      let last = IsRelocked-trans v v1 _ found_dir (
        IsRelocked-trans v1 v3 _ (search_node-IsRelocked node pb_pos lock_write pb_pos v1)
          (unlock_unless_root-IsRelocked pb_pos v3)) in
      elim (Bool-cases ((search_dir node pb_pos lock_read pb_pos v).0 == minus osada_enotdir)) [
        | inl stop ↦ rw stop (at_end nodes _ _ _ _ v round last)
        | inr go ↦ rw go (IsRelocked-trans v v2 _ round (walk_from-IsRelocked nodes _ v2))
      ]

  move_to-is_node :
      (from_pos : ℕ) (rfile : List ℕ) (pb_pos : ℕ) (v : Volume Bits)
      → length (v.file_table from_pos).fname ≡ osada_filename_length
      → length rfile ≤ osada_filename_length
      → IsText rfile
      → pb_pos < 2 ^ 16
      → is_deleted (v.file_table from_pos).state ≡ false
      → (u : Volume Bits) × (move_to from_pos rfile pb_pos v ≡ reply (answer osada_sexe) u)
        × (is_node rfile pb_pos (u.file_table from_pos) ≡ true)
        × ((j : ℕ)
            → u.file_table j ≡ (
                if from_pos == j
                then record (v.file_table j) {
                  fname = (u.file_table j).fname;
                  parent_directory = pb_pos;
                }
                else v.file_table j))
        × (u.mapping ≡ v.mapping)
        × (u.bitmap ≡ v.bitmap)
        × (u.blocks ≡ v.blocks)
  unfolding move_to
  move_to-is_node from_pos rfile pb_pos v full fits text small live =
      let short : ltb osada_filename_length (length rfile) ≡ false = ground arith in
      let name = get_fname-set_fname (v.file_table from_pos).fname rfile full fits text in
      (
        signal unlock from_pos (record v {
          file_table = update v.file_table from_pos (record (v.file_table from_pos) {
            parent_directory = pb_pos % 2 ^ 16;
            fname = set_fname (v.file_table from_pos).fname rfile;
          });
        }),
        rw short refl,
        ground (arith, name, bytes_eq_refl rfile, ==_refl from_pos),
        λ j. ground arith,
        refl,
        refl,
        refl,
      )

  -- Where the path `from` leads to the node at `from_pos`, which is in use, the path `to` leads through
  -- directories, each the first of its name, to a directory that has no node of the last component's name,
  -- and that name has at most 17 bytes, none of them NUL, osada_rename answers success. The node then has that
  -- name and that directory, its other fields and all other file blocks are as before, and so are the bitmap, the
  -- mapping table and the blocks. The searches for `to` leave the node itself aside.
  pub osada_rename-is_node :
      (env : Env) (from to : List ℕ) (v w : Volume Bits) (n : List ℕ) (ns dirs : List (List ℕ))
      (name : List ℕ) (from_pos last : ℕ)
      → tokens (c_string from) ≡ n ∷ ns
      → walk_from (n ∷ ns) root v ≡ found from_pos w
      → tokens (c_string to) ≡ dirs ++ name ∷ []
      → Leads v.file_table from_pos dirs root last
      → IsNewName v.file_table from_pos name last
      → length (v.file_table from_pos).fname ≡ osada_filename_length
      → length name ≤ osada_filename_length
      → IsText name
      → is_deleted (v.file_table from_pos).state ≡ false
      → (u : Volume Bits) × (osada_rename env from to v ≡ reply (answer osada_sexe) u)
        × (is_node name last (u.file_table from_pos) ≡ true)
        × ((j : ℕ)
            → u.file_table j ≡ (
                if from_pos == j
                then record (v.file_table j) {
                  fname = (u.file_table j).fname;
                  parent_directory = last;
                }
                else v.file_table j))
        × (u.mapping ≡ v.mapping)
        × (u.bitmap ≡ v.bitmap)
        × (u.blocks ≡ v.blocks)
  unfolding osada_rename
  osada_rename-is_node env from to v w n ns dirs name from_pos last split_from here split_to leads
        new full fits text live =
      let moved : IsRelocked v w = rw (ap end_of here) at (walk_from-IsRelocked (n ∷ ns) root v) in
      let table : w.file_table ≡ v.file_table = ap (λ x. x.file_table) moved in
      let (x, run, same) =
        rename_to_new env from_pos dirs name root last w (rw table leads) (rw table new) in
      let all = IsRelocked-trans v w x moved same in
      let table' : x.file_table ≡ v.file_table = ap (λ y. y.file_table) all in
      let (u, done, node, others, mapping, bitmap, blocks) =
        move_to-is_node from_pos name last x (rw table' full) fits text
          (Leads-small v.file_table from_pos dirs root last (omega arith) leads) (rw table' live) in
      (
        u,
        rw (osada_rename, split_from, here, split_to) (run ∙ done),
        node,
        rw table' at others,
        mapping ∙ ap (λ y. y.mapping) all,
        bitmap ∙ ap (λ y. y.bitmap) all,
        blocks ∙ ap (λ y. y.blocks) all,
      )
