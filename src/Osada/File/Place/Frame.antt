-- ===== src/Osada/File/Place/Frame.antt =====
-- Finding a file changes nothing but the locks.
use so_unoficial.Prelude.{
  c_string, ℕ, ◌≡◌, refl, ap, List, [], ◌∷◌, arith, ◌==◌, Bool-cases, inl, inr, if◌then◌else◌,
}
use so_unoficial.Osada.State.{Volume, lock_read, lock_write, minus, osada_enotdir, root}
use so_unoficial.Osada.Names.{tokens}
use so_unoficial.Osada.Table.{search_node, search_dir, unlock_unless_root}
use so_unoficial.Osada.Table.Frame.{
  IsRelocked, IsRelocked-trans, search_node-IsRelocked, search_dir-IsRelocked,
  unlock_unless_root-IsRelocked,
}
use so_unoficial.Osada.Node.{at, absent}
use so_unoficial.Osada.Node.Frame.{volume_of}
use so_unoficial.Osada.File.Place.{file_from, locate_file}

module _ {Bits : Type 0} where
  none-IsRelocked :
      (pb_pos : ℕ) (v : Volume Bits) → IsRelocked v (volume_of (file_from [] pb_pos v))
  unfolding file_from
  none-IsRelocked pb_pos v = refl

  last-IsRelocked :
      (node : List ℕ) (pb_pos : ℕ) (v : Volume Bits)
      → IsRelocked v (volume_of (file_from (node ∷ []) pb_pos v))
  unfolding file_from
  last-IsRelocked node pb_pos v =
      let v1 = (search_dir node pb_pos lock_read pb_pos v).1 in
      let v3 = (search_node node pb_pos lock_write pb_pos v1).1 in
      ground (
        arith,
        search_dir-IsRelocked node pb_pos lock_read pb_pos v,
        unlock_unless_root-IsRelocked pb_pos v1,
        search_node-IsRelocked node pb_pos lock_write pb_pos v1,
        unlock_unless_root-IsRelocked pb_pos v3,
      )

  -- One round of the loop with more of the path to come.
  file_from_step :
      (node n : List ℕ) (ns : List (List ℕ)) (pb_pos : ℕ) (v : Volume Bits)
      → file_from (node ∷ n ∷ ns) pb_pos v ≡ (
          let (dir_pos, v1) = search_dir node pb_pos lock_read pb_pos v in
          if dir_pos == minus osada_enotdir
          then absent (unlock_unless_root pb_pos v1)
          else file_from (n ∷ ns) dir_pos (unlock_unless_root pb_pos v1))
  unfolding file_from
  file_from_step node n ns pb_pos v = refl

  more-IsRelocked :
      (node n : List ℕ) (ns : List (List ℕ)) (pb_pos : ℕ) (v : Volume Bits)
      → ((p : ℕ) (u : Volume Bits) → IsRelocked u (volume_of (file_from (n ∷ ns) p u)))
      → IsRelocked v (volume_of (file_from (node ∷ n ∷ ns) pb_pos v))
  more-IsRelocked node n ns pb_pos v ih =
      let (dir_pos, v1) = search_dir node pb_pos lock_read pb_pos v in
      let v2 = unlock_unless_root pb_pos v1 in
      elim (Bool-cases (dir_pos == minus osada_enotdir)) [
        | inl stop ↦
            rw (file_from_step node n ns pb_pos v, stop)
              (IsRelocked-trans v v1 v2 (search_dir-IsRelocked node pb_pos lock_read pb_pos v)
                (unlock_unless_root-IsRelocked pb_pos v1))
        | inr go ↦
            rw (file_from_step node n ns pb_pos v, go)
              (IsRelocked-trans v v1 _ (search_dir-IsRelocked node pb_pos lock_read pb_pos v) (
                IsRelocked-trans v1 v2 _ (unlock_unless_root-IsRelocked pb_pos v1) (ih dir_pos v2)))
      ]

  file_from-IsRelocked :
      (nodes : List (List ℕ)) (pb_pos : ℕ) (v : Volume Bits)
      → IsRelocked v (volume_of (file_from nodes pb_pos v))
  file_from-IsRelocked [] pb_pos v = none-IsRelocked pb_pos v
  file_from-IsRelocked (node ∷ []) pb_pos v = last-IsRelocked node pb_pos v
  file_from-IsRelocked (node ∷ n ∷ ns) pb_pos v =
      more-IsRelocked node n ns pb_pos v (λ p u. file_from-IsRelocked (n ∷ ns) p u)

  -- The file is found on the volume as it was, but for the locks.
  pub locate_file-IsRelocked :
      (path : List ℕ) (v w : Volume Bits) (pos : ℕ) → locate_file path v ≡ at pos w → IsRelocked v w
  unfolding locate_file
  locate_file-IsRelocked path v w pos h =
      rw (ap volume_of h) at (file_from-IsRelocked (tokens (c_string path)) root v)
