-- ===== src/Osada/Directory/Listing.antt =====
-- The locks of osada_readdir.
use so_unoficial.Prelude.{
  ℕ, zero, suc, ◌+◌, ◌≡◌, refl, not, ◌&&◌, List, [], ◌∷◌, ◌==◌, if◌then◌else◌, arith,
}
use so_unoficial.Osada.State.{
  file_blocks_mount, root, OsadaFile, LockTrace, lock_read, unlock, semaphore, Volume,
}
use so_unoficial.Osada.Table.{unlock_unless_root}
use so_unoficial.Osada.Table.Locks.{taken, given, Holds}
use so_unoficial.Osada.Reply.{reply}
use so_unoficial.Osada.Directory.{is_child, children_from, unlock_all, send_nodes, read_children}

-- How often a position stands in the list of nodes.
abbrev listed : ℕ → List (ℕ × List ℕ) → ℕ
listed p [] = 0
listed p (node ∷ nodes) = (if node.0 == p then 1 else 0) + listed p nodes

children_from-Holds :
    (table : ℕ → OsadaFile) (pb_pos left i : ℕ) (tr : LockTrace) (p : ℕ)
    → let (nodes, tr') = children_from table pb_pos left i tr in Holds p tr tr' (listed p nodes)
unfolding children_from semaphore taken given
children_from-Holds table pb_pos zero i tr p = ground arith
children_from-Holds table pb_pos (suc left) i tr p = ground (
  arith,
  children_from-Holds table pb_pos left (suc i)
      (if i == pb_pos
        then tr
        else if is_child pb_pos (table i)
        then semaphore lock_read i tr
        else semaphore unlock i (semaphore lock_read i tr))
      p,
)

unlock_all-given :
    (nodes : List (ℕ × List ℕ)) (tr : LockTrace) (p : ℕ)
    → (given p (unlock_all nodes tr) ≡ given p tr + listed p nodes)
      × (taken p (unlock_all nodes tr) ≡ taken p tr)
unfolding unlock_all semaphore taken given
unlock_all-given [] tr p = (ground arith, refl)
unlock_all-given ((i, node) ∷ nodes) tr p =
    let (g, t) = unlock_all-given nodes (semaphore unlock i tr) p in (ground arith, ground arith)

-- From `before` to `after` the lock of `p` was given back `n` times more than it was taken.
abbrev pub Releases : ℕ → LockTrace → LockTrace → ℕ → Type 0
Releases p before after n = Holds p after before n

list_locks :
    (table : ℕ → OsadaFile) (pb_pos : ℕ) (tr : LockTrace) (p : ℕ)
    → let (nodes, tr') = children_from table pb_pos file_blocks_mount 0 tr in
      Holds p tr (unlock_all nodes tr') 0
list_locks table pb_pos tr p =
    let (nodes, tr') = children_from table pb_pos file_blocks_mount 0 tr in
    let (g, t) = unlock_all-given nodes tr' p in
    omega (arith, g, t, children_from-Holds table pb_pos file_blocks_mount 0 tr p)

module _ {Bits : Type 0} where
  -- The locks after the directory's own is given back.
  unlock_unless_root-Releases :
      (pb_pos p : ℕ) (v : Volume Bits) (tr : LockTrace)
      → Holds p v.locks tr 0
      → Releases p v.locks
          (unlock_unless_root pb_pos (record v { locks = tr })).locks
          (if p == pb_pos && not (pb_pos == root) then 1 else 0)
  unfolding semaphore taken given
  unlock_unless_root-Releases pb_pos p v tr h = ground arith

  unlock_unless_root-table :
      (pb_pos : ℕ) (v : Volume Bits) (tr : LockTrace)
      → (unlock_unless_root pb_pos (record v { locks = tr })).file_table ≡ v.file_table
  unlock_unless_root-table pb_pos v tr = ground arith

  send_nodes-Releases :
      (pb_pos p : ℕ) (v : Volume Bits) (nodes : List (ℕ × List ℕ)) (tr : LockTrace)
      → Holds p v.locks (unlock_all nodes tr) 0
      → (bytes : List ℕ) × (u : Volume Bits) × (send_nodes pb_pos v nodes tr ≡ reply bytes u)
        × Releases p v.locks u.locks (if p == pb_pos && not (pb_pos == root) then 1 else 0)
        × (u.file_table ≡ v.file_table)
  unfolding send_nodes unlock_all
  send_nodes-Releases pb_pos p v [] tr h = (
    _,
    _,
    refl,
    unlock_unless_root-Releases pb_pos p v (unlock_all [] tr) h,
    unlock_unless_root-table pb_pos v _,
  )
  send_nodes-Releases pb_pos p v (n ∷ ns) tr h = (
    _,
    _,
    refl,
    unlock_unless_root-Releases pb_pos p v (unlock_all (n ∷ ns) tr) h,
    unlock_unless_root-table pb_pos v _,
  )

  -- From the point where the directory is known, osada_readdir sends a response, and it gives back every lock that it
  -- takes on the nodes of the directory, and once the lock of the directory itself unless that is the root; it
  -- changes no file block.
  pub read_children-Releases :
      (pb_pos : ℕ) (v : Volume Bits) (p : ℕ)
      → (bytes : List ℕ) × (u : Volume Bits) × (read_children pb_pos v ≡ reply bytes u)
        × Releases p v.locks u.locks (if p == pb_pos && not (pb_pos == root) then 1 else 0)
        × (u.file_table ≡ v.file_table)
  unfolding read_children
  read_children-Releases pb_pos v p =
      let (nodes, tr) = children_from v.file_table pb_pos file_blocks_mount 0 v.locks in
      send_nodes-Releases pb_pos p v nodes tr (list_locks v.file_table pb_pos v.locks p)
