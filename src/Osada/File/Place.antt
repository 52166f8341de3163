-- ===== src/Osada/File/Place.antt =====
-- Finding the file that osada_write, osada_truncate and osada_unlink work on.
pub mod Frame
use so_unoficial.Prelude.{
  c_string, ℕ, List, [], ◌∷◌, ◌==◌, if◌then◌else◌, Bool, ◌+◌, ◌-◌, ◌*◌, ◌/◌, ◌%◌, ltb, leb, ◌&&◌,
  ◌||◌,
}
use so_unoficial.Osada.State.{
  minus, osada_enoent, osada_enotdir, root, lock_read, lock_write, Volume, osada_block_size,
}
use so_unoficial.Osada.Names.{tokens}
use so_unoficial.Osada.Table.{search_node, search_dir, unlock_unless_root}
use so_unoficial.Osada.Node.{Located, at, absent, unset}

module _ {Bits : Type 0} where
  -- The loop over the path. Where every component is a directory, `file_pos` is never set.
  unfoldable pub file_from : List (List ℕ) → ℕ → Volume Bits → Located Bits
  file_from [] pb_pos v = unset v
  file_from (node ∷ nodes) pb_pos v =
      let (dir_pos, v1) = search_dir node pb_pos lock_read pb_pos v in
      let v2 = unlock_unless_root pb_pos v1 in
      let rest = file_from nodes dir_pos v2 in
      let (file_pos, v3) = search_node node pb_pos lock_write pb_pos v1 in
      let v4 = unlock_unless_root pb_pos v3 in
      let stop : Located Bits = elim nodes [
        | [] ↦ if file_pos == minus osada_enoent then absent v4 else at file_pos v4
        | n ∷ ns ↦ absent v2
      ] in
      if dir_pos == minus osada_enotdir then stop else rest

  unfoldable pub locate_file : List ℕ → Volume Bits → Located Bits
  unfolding file_from
  locate_file path v = file_from (tokens (c_string path)) root v
