-- ===== src/Osada/Node.antt =====
-- The handlers osada_getattr, osada_mknod and osada_rename.
pub mod Frame
pub mod Target
pub mod Rename
use so_unoficial.Prelude.{
  update, c_string, le32, ℕ, zero, suc, ◌+◌, ◌-◌, ◌^◌, ◌%◌, Bool, true, false, not, ◌&&◌, ◌||◌,
  List, [], ◌∷◌, ◌++◌, ◌==◌, if◌then◌else◌, ltb, length,
}
use so_unoficial.Osada.State.{
  minus, osada_enoent, osada_isreg, osada_isdir, osada_enotdir, osada_enospc, osada_sexe,
  osada_enametoolong, osada_filename_length, root, OsadaFile, FileState, deleted, regular,
  directory, lock_read, lock_write, unlock, Volume, Env,
}
use so_unoficial.Osada.Names.{tokens, set_fname}
use so_unoficial.Osada.Table.{search_node, search_dir, create_node, signal, unlock_unless_root}
use so_unoficial.Osada.Reply.{Outcome, reply, silent, undefined, answer}
use so_unoficial.Osada.Directory.{Walk, found, missing}

-- Where the loop of a handler that works on one file comes to: as a walk, or to its end with the
-- position never set.
pub data Located (Bits : Type 0) : Type 0 where
  at : ℕ → Volume Bits → Located Bits
  absent : Volume Bits → Located Bits
  unset : Volume Bits → Located Bits

module _ {Bits : Type 0} where
  -- The loop of osada_getattr and osada_read over the nodes of the path.
  unfoldable pub walk_nodes : List (List ℕ) → ℕ → Volume Bits → Walk Bits
  walk_nodes [] pb_pos v = found pb_pos v
  walk_nodes (node ∷ nodes) pb_pos v =
      let (node_pos, v1) = search_node node pb_pos lock_read pb_pos v in
      let v2 = unlock_unless_root pb_pos v1 in
      let rest = walk_nodes nodes node_pos v2 in
      if node_pos == minus osada_enoent then missing v2 else rest

  -- The same for a path with at least one node; another leaves `node_pos` unset.
  unfoldable pub locate_node : List ℕ → Volume Bits → Located Bits
  locate_node path v = elim (tokens (c_string path)) [
    | [] ↦ unset v
    | node ∷ nodes ↦ elim (walk_nodes (node ∷ nodes) root v) [
      | found pos w ↦ at pos w
      | missing w ↦ absent w
    ]
  ]

  -- The end of osada_getattr. For a DELETED block the response code would be unset.
  pub send_attr : FileState → ℕ → ℕ → Volume Bits → Outcome Bits
  send_attr directory file_size lastmod v = reply (osada_isdir ∷ le32 0 ++ le32 lastmod) v
  send_attr regular file_size lastmod v = reply (osada_isreg ∷ le32 file_size ++ le32 lastmod) v
  send_attr deleted file_size lastmod v = undefined

  -- void osada_getattr(int * client_socket)
  pub osada_getattr : List ℕ → Volume Bits → Outcome Bits
  osada_getattr path v = elim (locate_node path v) [
    | at pos w ↦
        let f = w.file_table pos in send_attr f.state f.file_size f.lastmod (signal unlock pos w)
    | absent w ↦ reply (answer osada_enoent) w
    | unset w ↦ undefined
  ]

  -- osada_mknod at the last component, where no directory has that name.
  pub make_node : Env → List ℕ → ℕ → Volume Bits → Outcome Bits
  make_node env rfile pb_pos v =
      let (node_pos, v1) = create_node env rfile pb_pos v in
      if ltb osada_filename_length (length rfile)
      then reply (answer osada_enametoolong) (unlock_unless_root pb_pos v)
      else if node_pos == minus osada_enospc
      then reply (answer osada_enospc) (unlock_unless_root pb_pos v1)
      else reply (answer osada_isreg) (unlock_unless_root pb_pos v1)

  -- The loop of osada_mknod over the path. Its end, where every component is a directory, sends the same
  -- response as a file that was created.
  pub mknod_from : Env → List (List ℕ) → ℕ → Volume Bits → Outcome Bits
  mknod_from env [] pb_pos v = reply (answer osada_isreg) v
  mknod_from env (node ∷ nodes) pb_pos v =
      let (node_pos, v1) = search_dir node pb_pos lock_read pb_pos v in
      let v2 = unlock_unless_root pb_pos v1 in
      let rest = mknod_from env nodes node_pos v2 in
      let stop : Outcome Bits = elim nodes [
        | [] ↦ make_node env node pb_pos v1
        | n ∷ ns ↦ reply (answer osada_enotdir) v2
      ] in
      if node_pos == minus osada_enotdir then stop else rest

  -- void osada_mknod(int * client_socket)
  pub osada_mknod : Env → List ℕ → Volume Bits → Outcome Bits
  osada_mknod env path v = mknod_from env (tokens (c_string path)) root v

  -- The loop of osada_rename over the path `from`: the last component may be a file, and is then locked to
  -- write; a directory is locked to read.
  unfoldable pub walk_from : List (List ℕ) → ℕ → Volume Bits → Walk Bits
  walk_from [] pb_pos v = found pb_pos v
  walk_from (node ∷ nodes) pb_pos v =
      let (node_pos, v1) = search_dir node pb_pos lock_read pb_pos v in
      let v2 = unlock_unless_root pb_pos v1 in
      let rest = walk_from nodes node_pos v2 in
      let (file_pos, v3) = search_node node pb_pos lock_write pb_pos v1 in
      let v4 = unlock_unless_root pb_pos v3 in
      let stop : Walk Bits = elim nodes [
        | [] ↦ if file_pos == minus osada_enoent then missing v4 else found file_pos v4
        | n ∷ ns ↦ missing v2
      ] in
      if node_pos == minus osada_enotdir then stop else rest

  -- osada_rename where the last component of `to` does not exist: the node is renamed and moved.
  pub move_to : ℕ → List ℕ → ℕ → Volume Bits → Outcome Bits
  move_to from_pos rfile pb_pos v =
      let f = v.file_table from_pos in
      let moved : OsadaFile = record f {
        parent_directory = pb_pos % 2 ^ 16;
        fname = set_fname f.fname rfile;
      } in
      if ltb osada_filename_length (length rfile)
      then reply (answer osada_enametoolong) (signal unlock from_pos v)
      else reply (answer osada_sexe)
          (signal unlock from_pos (record v { file_table = update v.file_table from_pos moved }))

  -- osada_rename where the last component of `to` exists, at `to_pos`, by the state found there. For a
  -- DELETED block the response code would be unset.
  pub move_into : Env → ℕ → ℕ → ℕ → FileState → Volume Bits → Outcome Bits
  move_into env from_pos pb_pos to_pos directory v =
      let f = v.file_table from_pos in
      let moved : OsadaFile = record f { parent_directory = pb_pos % 2 ^ 16; lastmod = env.now } in
      reply (answer osada_sexe) (
        signal unlock to_pos
          (signal unlock from_pos (record v { file_table = update v.file_table from_pos moved })))
  move_into env from_pos pb_pos to_pos regular v =
      reply (answer osada_isreg) (signal unlock to_pos (signal unlock from_pos v))
  move_into env from_pos pb_pos to_pos deleted v = undefined

  -- The loop of osada_rename over the path `to`. Its end, where every component is a directory, sends
  -- nothing.
  pub rename_to : Env → ℕ → List (List ℕ) → ℕ → Volume Bits → Outcome Bits
  rename_to env from_pos [] pb_pos v = silent v
  rename_to env from_pos (node ∷ nodes) pb_pos v =
      let (node_pos, v1) = search_dir node pb_pos lock_read from_pos v in
      let v2 = unlock_unless_root pb_pos v1 in
      let rest = rename_to env from_pos nodes node_pos v2 in
      let (to_pos, v3) = search_node node pb_pos lock_read from_pos v1 in
      let v4 = unlock_unless_root pb_pos v3 in
      let stop : Outcome Bits = elim nodes [
        | [] ↦
            if to_pos == minus osada_enoent
            then move_to from_pos node pb_pos v4
            else move_into env from_pos pb_pos to_pos (v4.file_table to_pos).state v4
        | n ∷ ns ↦ reply (answer osada_enoent) v2
      ] in
      if node_pos == minus osada_enotdir then stop else rest

  -- void osada_rename(int * client_socket), with the paths `from` and `to`. The search for `to` names
  -- `node_pos_from`, which a path `from` with no component leaves unset.
  pub osada_rename : Env → List ℕ → List ℕ → Volume Bits → Outcome Bits
  osada_rename env from to v = elim (tokens (c_string from)) [
    | [] ↦ undefined
    | node ∷ nodes ↦ elim (walk_from (node ∷ nodes) root v) [
      | found from_pos w ↦ rename_to env from_pos (tokens (c_string to)) root w
      | missing w ↦ reply (answer osada_enoent) w
    ]
  ]
