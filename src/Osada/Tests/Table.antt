-- ===== src/Osada/Tests/Table.antt =====
-- The searches of the file table, create_node and create_dir on the small volume.
use so_unoficial.Prelude.{
  c_string, ℕ, ◌≡◌, ◌≢◌, refl, true, List, [], ◌∷◌, ◌==◌, if◌then◌else◌, arith, bytes_eq,
}
use so_unoficial.Osada.State.{
  end_of_file, minus, Env, regular, lock_write, semaphore, file_blocks_mount, osada_enoent,
  osada_enospc,
}
use so_unoficial.Osada.Names.{get_fname}
use so_unoficial.Osada.Table.{
  is_deleted, search_from, search_node, search_dir, free_from, create, create_node,
  get_free_file_block,
}
use so_unoficial.Osada.Table.Search.{
  is_hit, is_free, IsFirst, search_node-IsFirst, get_free_file_block-IsFirst,
}
use so_unoficial.Osada.Table.Create.{create_node-search_node}
use so_unoficial.Osada.Table.Locks.{
  Holds, one_if, search_node-Holds, search_dir-Holds, create-Holds,
}
use so_unoficial.Osada.Tests.Sample.{flags, sample}

abbrev name_h : List ℕ
name_h = b'h' ∷ []

abbrev name_f : List ℕ
name_f = b'f' ∷ []

abbrev env : Env
env = record { now = 5; uninit = λ i. 7 }

search_node-IsFirst_example :
    IsFirst
      (is_hit sample.file_table name_f 0 0)
      0
      file_blocks_mount
      (minus osada_enoent)
      (search_node name_f 0 lock_write 0 sample).0
search_node-IsFirst_example = search_node-IsFirst name_f 0 lock_write 0 sample

search_node_f : (search_node name_f 0 lock_write 0 sample).0 ≡ 1
unfolding search_node search_from semaphore get_fname c_string bytes_eq
search_node_f = refl

get_free_file_block-IsFirst_example :
    IsFirst
      (is_free sample.file_table 0)
      0
      file_blocks_mount
      file_blocks_mount
      (get_free_file_block 0 sample).0
get_free_file_block-IsFirst_example = get_free_file_block-IsFirst 0 sample

get_free_file_block_3 : (get_free_file_block 0 sample).0 ≡ 3
unfolding get_free_file_block free_from semaphore
get_free_file_block_3 = refl

search_node-Holds_example :
    let (r, w) = search_node name_f 0 lock_write 0 sample in Holds 1 [] w.locks (one_if (1 == r))
search_node-Holds_example = search_node-Holds name_f 0 lock_write 0 sample 1 tt (omega arith)

search_dir-Holds_example :
    let (r, w) = search_dir name_f 0 lock_write 0 sample in Holds 1 [] w.locks (one_if (1 == r))
search_dir-Holds_example = search_dir-Holds name_f 0 lock_write 0 sample 1 tt (omega arith)

create-Holds_example : Holds 3 [] (create regular end_of_file env name_h 0 sample).1.locks 0
create-Holds_example = create-Holds regular end_of_file env name_h 0 sample 3 (omega arith)

absent_h : (search_node name_h 0 lock_write 0 sample).0 ≡ minus osada_enoent
unfolding search_node search_from semaphore get_fname c_string bytes_eq
absent_h = refl

room : (create_node env name_h 0 sample).0 ≢ minus osada_enospc
unfolding create_node create get_free_file_block free_from semaphore
room = omega arith

create_node-search_node_example :
    let (pos, w) = create_node env name_h 0 sample in
    (is_deleted (sample.file_table pos).state ≡ true)
    × ((w.file_table pos).state ≡ regular)
    × ((w.file_table pos).file_size ≡ 0)
    × ((w.file_table pos).first_block ≡ end_of_file)
    × ((j : ℕ) → w.file_table j ≡ (if pos == j then w.file_table pos else sample.file_table j))
    × ((search_node name_h 0 lock_write 0 w).0 ≡ pos)
create_node-search_node_example =
    create_node-search_node sample env name_h 0 lock_write absent_h (omega arith) (omega arith)
      (omega arith) room
