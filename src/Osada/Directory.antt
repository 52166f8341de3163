-- ===== src/Osada/Directory.antt =====
-- The handlers osada_mkdir, osada_readdir and osada_rmdir.
pub mod Listing
use so_unoficial.Prelude.{
  update, c_string, le32, ℕ, zero, suc, ◌+◌, Bool, not, ◌&&◌, List, [], ◌∷◌, ◌++◌, ◌==◌,
  if◌then◌else◌, ltb, length,
}
use so_unoficial.Osada.State.{
  minus, osada_isdir, osada_enotdir, osada_enospc, osada_emptydir, osada_notemptydir, osada_sexe,
  osada_enametoolong, osada_filename_length, file_blocks_mount, root, OsadaFile, deleted, lock_read,
  lock_write, unlock, LockTrace, LockAction, semaphore, Volume, Env,
}
use so_unoficial.Osada.Names.{tokens, is_slash, get_fname}
use so_unoficial.Osada.Table.{is_deleted, search_dir, create_dir, signal, unlock_unless_root}
use so_unoficial.Osada.Reply.{Outcome, reply, undefined, answer}

-- Where a path leads: the position found, whose lock is held, or a component that is not there.
pub data Walk (Bits : Type 0) : Type 0 where
  found : ℕ → Volume Bits → Walk Bits
  missing : Volume Bits → Walk Bits

module _ {Bits : Type 0} where
  -- The loop of osada_mkdir over the directories of the path, from `pb_pos` on. Its test for a full
  -- table reads `pb_pos`, not the position that create_dir answered.
  pub mkdir_from : Env → List (List ℕ) → ℕ → Volume Bits → Outcome Bits
  mkdir_from env [] pb_pos v = reply (answer osada_isdir) v
  mkdir_from env (dir ∷ dirs) pb_pos v =
      let (dir_pos, v1) = search_dir dir pb_pos lock_read pb_pos v in
      let (new_pos, v2) = create_dir env dir pb_pos v1 in
      let is_missing = dir_pos == minus osada_enotdir in
      let rest =
        mkdir_from env dirs (if is_missing then new_pos else dir_pos)
          (unlock_unless_root pb_pos (if is_missing then v2 else v1)) in
      if is_missing && ltb osada_filename_length (length dir)
      then reply (answer osada_enametoolong) (unlock_unless_root pb_pos v1)
      else if is_missing && pb_pos == minus osada_enospc
      then reply (answer osada_enospc) (unlock_unless_root pb_pos v2)
      else rest

  -- void osada_mkdir(int * client_socket), with the path that was received.
  pub osada_mkdir : Env → List ℕ → Volume Bits → Outcome Bits
  osada_mkdir env path v =
      if is_slash (c_string path)
      then reply (answer osada_isdir) v
      else mkdir_from env (tokens (c_string path)) root v

  -- The loop of osada_readdir over the directories of the path.
  pub walk_dirs : List (List ℕ) → ℕ → Volume Bits → Walk Bits
  walk_dirs [] pb_pos v = found pb_pos v
  walk_dirs (dir ∷ dirs) pb_pos v =
      let (dir_pos, v1) = search_dir dir pb_pos lock_read pb_pos v in
      let v2 = unlock_unless_root pb_pos v1 in
      let rest = walk_dirs dirs dir_pos v2 in
      if dir_pos == minus osada_enotdir then missing v2 else rest

-- The names and positions in `node_list` and `locked_blocks_list`, and the locks, after the loop of
-- osada_readdir over the table from position `i`.
abbrev pub is_child : ℕ → OsadaFile → Bool
is_child pb_pos f = not (is_deleted f.state) && f.parent_directory == pb_pos

pub children_from : (ℕ → OsadaFile) → ℕ → ℕ → ℕ → LockTrace → List (ℕ × List ℕ) × LockTrace
children_from table pb_pos zero i tr = ([], tr)
children_from table pb_pos (suc left) i tr =
    let skipped = i == pb_pos in
    let child = is_child pb_pos (table i) in
    let locked = semaphore lock_read i tr in
    let (nodes, tr') =
      children_from table pb_pos left (suc i)
        (if skipped then tr else if child then locked else semaphore unlock i locked) in
    (if not skipped && child then (i, get_fname (table i).fname) ∷ nodes else nodes, tr')

-- The buffer of osada_readdir: each name with a comma behind it.
pub join_names : List (ℕ × List ℕ) → List ℕ
join_names [] = []
join_names ((i, node) ∷ nodes) = node ++ b',' ∷ join_names nodes

-- `list_destroy_and_destroy_elements(locked_blocks_list, &unlock_block)`
pub unlock_all : List (ℕ × List ℕ) → LockTrace → LockTrace
unlock_all [] tr = tr
unlock_all ((i, node) ∷ nodes) tr = unlock_all nodes (semaphore unlock i tr)

module _ {Bits : Type 0} where
  -- The response of osada_readdir for the nodes found and the locks then held.
  pub send_nodes : ℕ → Volume Bits → List (ℕ × List ℕ) → LockTrace → Outcome Bits
  send_nodes pb_pos v [] tr =
      reply (answer osada_emptydir) (unlock_unless_root pb_pos (record v { locks = tr }))
  send_nodes pb_pos v (n ∷ ns) tr =
      let buffer = join_names (n ∷ ns) in
      reply (osada_notemptydir ∷ le32 (length buffer + 1) ++ buffer ++ 0 ∷ [])
        (unlock_unless_root pb_pos (record v { locks = unlock_all (n ∷ ns) tr }))

  -- osada_readdir from the point where the directory's position is known.
  pub read_children : ℕ → Volume Bits → Outcome Bits
  read_children pb_pos v =
      let (nodes, tr) = children_from v.file_table pb_pos file_blocks_mount 0 v.locks in
      send_nodes pb_pos v nodes tr

  -- void osada_readdir(int * client_socket)
  pub osada_readdir : List ℕ → Volume Bits → Outcome Bits
  osada_readdir path v =
      if is_slash (c_string path)
      then read_children root v
      else (elim (walk_dirs (tokens (c_string path)) root v) [
        | found pb_pos w ↦ read_children pb_pos w
        | missing w ↦ reply (answer osada_enotdir) w
      ])

  -- The loop of osada_rmdir, which locks the last directory of the path to write.
  pub walk_rmdir : List (List ℕ) → ℕ → Volume Bits → Walk Bits
  walk_rmdir [] pb_pos v = found pb_pos v
  walk_rmdir (dir ∷ dirs) pb_pos v =
      let lock_type : LockAction = elim dirs [ [] ↦ lock_write | d ∷ ds ↦ lock_read ] in
      let (dir_pos, v1) = search_dir dir pb_pos lock_type pb_pos v in
      let v2 = unlock_unless_root pb_pos v1 in
      let rest = walk_rmdir dirs dir_pos v2 in
      if dir_pos == minus osada_enotdir then missing v2 else rest

  -- The end of osada_rmdir, once the directory is found.
  pub remove_dir : ℕ → Volume Bits → Outcome Bits
  remove_dir dir_pos v = reply (answer osada_sexe) (
      signal unlock dir_pos (record v {
        file_table =
            update v.file_table dir_pos (record (v.file_table dir_pos) { state = deleted });
      }))

  -- void osada_rmdir(int * client_socket). A path with no directory at all leaves `dir_pos` unset.
  pub osada_rmdir : List ℕ → Volume Bits → Outcome Bits
  osada_rmdir path v =
      if is_slash (c_string path)
      then reply (answer osada_sexe) v
      else (elim (tokens (c_string path)) [
        | [] ↦ undefined
        | dir ∷ dirs ↦ elim (walk_rmdir (dir ∷ dirs) root v) [
          | found dir_pos w ↦ remove_dir dir_pos w
          | missing w ↦ reply (answer osada_enotdir) w
        ]
      ])
