-- ===== src/Osada/Table.antt =====
-- The file table: search_dir, search_node, get_free_file_block, create_dir and create_node.
pub mod Search
pub mod Create
pub mod Locks
pub mod Frame
use so_unoficial.Prelude.{
  update, ℕ, zero, suc, ◌+◌, ◌-◌, ◌*◌, ◌^◌, ◌%◌, ◌<◌, ◌≡◌, Bool, true, false, not, ◌&&◌, ◌||◌, List,
  [], ◌∷◌, ◌==◌, if◌then◌else◌, ltb, length, bytes_eq,
}
use so_unoficial.Osada.State.{
  minus, osada_enoent, osada_enotdir, osada_enospc, osada_filename_length, file_blocks_mount, root,
  end_of_file, FileState, OsadaFile, deleted, regular, directory, LockAction, LockTrace, lock_read,
  lock_write, unlock, semaphore, Volume, Env, uninit_bytes,
}
use so_unoficial.Osada.Names.{get_fname, set_fname}

-- `state == DELETED` and `state == DIRECTORY`
abbrev pub is_deleted : FileState → Bool
is_deleted deleted = true
is_deleted regular = false
is_deleted directory = false

abbrev pub is_directory : FileState → Bool
is_directory deleted = false
is_directory regular = false
is_directory directory = true

-- The test of search_node at one file block: in use, of that name and in that directory.
abbrev pub is_node : List ℕ → ℕ → OsadaFile → Bool
is_node name pb_pos f =
    not (is_deleted f.state) && (bytes_eq (get_fname f.fname) name && f.parent_directory == pb_pos)

-- The loop of search_node from position `i` with `left` positions to go. A position that is tested
-- is locked, and unlocked again unless it is the one found. The position found, or -OSADA_ENOENT.
unfoldable pub search_from :
    (ℕ → OsadaFile) → List ℕ → ℕ → LockAction → ℕ → ℕ → ℕ → LockTrace → ℕ × LockTrace
search_from table name pb_pos lock_type ignore_pos zero i tr = (minus osada_enoent, tr)
search_from table name pb_pos lock_type ignore_pos (suc left) i tr =
    let skipped = i == pb_pos || i == ignore_pos in
    let locked = semaphore lock_type i tr in
    let rest =
      search_from table name pb_pos lock_type ignore_pos left (suc i)
        (if skipped then tr else semaphore unlock i locked) in
    if not skipped && is_node name pb_pos (table i) then (i, locked) else rest

-- The loop of get_free_file_block.
unfoldable pub free_from : (ℕ → OsadaFile) → ℕ → ℕ → ℕ → LockTrace → ℕ × LockTrace
free_from table pb_pos zero i tr = (i, tr)
free_from table pb_pos (suc left) i tr =
    let skipped = i == pb_pos in
    let locked = semaphore lock_write i tr in
    let rest =
      free_from table pb_pos left (suc i) (if skipped then tr else semaphore unlock i locked) in
    if not skipped && is_deleted (table i).state then (i, locked) else rest

-- The record that create_dir and create_node fill in memory from malloc.
unfoldable pub fresh_file : FileState → ℕ → List ℕ → ℕ → Env → OsadaFile
fresh_file state first_block name pb_pos env = record {
  state = state;
  fname = set_fname (uninit_bytes env osada_filename_length) name;
  parent_directory = pb_pos % 2 ^ 16;
  file_size = 0;
  lastmod = env.now;
  first_block = first_block;
}

module _ {Bits : Type 0} where
  -- `semaphore(action, pos)` on the volume's locks, and the same unless `pos` is ROOT.
  abbrev pub signal : LockAction → ℕ → Volume Bits → Volume Bits
  signal action pos v = record v { locks = semaphore action pos v.locks }

  abbrev pub unlock_unless_root : ℕ → Volume Bits → Volume Bits
  unlock_unless_root pos v = if pos == root then v else signal unlock pos v

  -- int search_node(const char * node_name, int pb_pos, int lock_type, int ignore_pos)
  unfoldable pub search_node : List ℕ → ℕ → LockAction → ℕ → Volume Bits → ℕ × Volume Bits
  search_node name pb_pos lock_type ignore_pos v =
      let (r, tr) =
        search_from v.file_table name pb_pos lock_type ignore_pos file_blocks_mount 0 v.locks in
      (r, record v { locks = tr })

  -- int search_dir(const char * dir_name, int pb_pos, int lock_type, int ignore_pos)
  unfoldable pub search_dir : List ℕ → ℕ → LockAction → ℕ → Volume Bits → ℕ × Volume Bits
  search_dir name pb_pos lock_type ignore_pos v =
      let (node_pos, v1) = search_node name pb_pos lock_type ignore_pos v in
      if node_pos == minus osada_enoent
      then (minus osada_enotdir, v1)
      else if is_directory (v.file_table node_pos).state
      then (node_pos, v1)
      else (minus osada_enotdir, signal unlock node_pos v1)

  -- int get_free_file_block(int pb_pos)
  unfoldable pub get_free_file_block : ℕ → Volume Bits → ℕ × Volume Bits
  get_free_file_block pb_pos v =
      let (pos, tr) = free_from v.file_table pb_pos file_blocks_mount 0 v.locks in
      (pos, record v { locks = tr })

  unfoldable pub create : FileState → ℕ → Env → List ℕ → ℕ → Volume Bits → ℕ × Volume Bits
  unfolding fresh_file
  create state first_block env name pb_pos v =
      let (pos, v1) = get_free_file_block pb_pos v in
      if ltb (file_blocks_mount - 1) pos then (minus osada_enospc, v1) else (
        pos,
        signal unlock pos (record v1 {
          file_table = update v1.file_table pos (fresh_file state first_block name pb_pos env);
        }),
      )

  -- int create_dir(const char * dir_name, int pb_pos)
  unfoldable pub create_dir : Env → List ℕ → ℕ → Volume Bits → ℕ × Volume Bits
  create_dir = create directory 0

  -- int create_node(const char * node_name, int pb_pos)
  unfoldable pub create_node : Env → List ℕ → ℕ → Volume Bits → ℕ × Volume Bits
  create_node = create regular end_of_file
