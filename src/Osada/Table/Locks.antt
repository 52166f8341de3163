-- ===== src/Osada/Table/Locks.antt =====
-- The locks that the searches of the file table leave held.
use so_unoficial.Prelude.{
  ℕ, zero, suc, ◌+◌, ◌^◌, ◌<◌, ◌≡◌, Bool, ◌||◌, List, [], ◌∷◌, ◌==◌, if◌then◌else◌, arith,
}
use so_unoficial.Osada.State.{
  file_blocks_mount, FileState, OsadaFile, LockAction, LockTrace, LockEvent, lock_read, lock_write,
  unlock, semaphore, Volume, Env,
}
use so_unoficial.Osada.Table.{
  search_from, free_from, search_node, search_dir, get_free_file_block, create,
}

-- How often the lock of position `p` was taken, and how often it was given back.
abbrev pub takes : ℕ → LockEvent → ℕ
takes p e = if e.pos == p then (elim e.action [ unlock ↦ 0 | _ ↦ 1 ]) else 0

abbrev pub gives : ℕ → LockEvent → ℕ
gives p e = if e.pos == p then (elim e.action [ unlock ↦ 1 | _ ↦ 0 ]) else 0

unfoldable pub taken : ℕ → LockTrace → ℕ
taken p [] = 0
taken p (e ∷ tr) = takes p e + taken p tr

unfoldable pub given : ℕ → LockTrace → ℕ
given p [] = 0
given p (e ∷ tr) = gives p e + given p tr

-- From `before` to `after` the lock of `p` was taken `n` times more than it was given back.
abbrev pub Holds : ℕ → LockTrace → LockTrace → ℕ → Type 0
Holds p before after n = taken p after + given p before ≡ given p after + taken p before + n

-- A lock that a search takes is one to read or one to write.
abbrev pub IsLock : LockAction → Type 0
IsLock lock_read = Unit
IsLock lock_write = Unit
IsLock unlock = ⊥

abbrev pub one_if : Bool → ℕ
one_if b = if b then 1 else 0

search_from-Holds :
    (table : ℕ → OsadaFile) (name : List ℕ) (pb_pos : ℕ) (lock_type : LockAction)
    (ignore_pos left i : ℕ) (tr : LockTrace) (p : ℕ)
    → IsLock lock_type
    → p < 2 ^ 31
    → let (r, tr') = search_from table name pb_pos lock_type ignore_pos left i tr in
      Holds p tr tr' (one_if (p == r))
unfolding search_from semaphore taken given
search_from-Holds table name pb_pos lock_type ignore_pos zero i tr p l small = ground arith
search_from-Holds table name pb_pos lock_read ignore_pos (suc left) i tr p l small = ground (
  arith,
  search_from-Holds table name pb_pos lock_read ignore_pos left (suc i)
      (if i == pb_pos || i == ignore_pos then tr else semaphore unlock i (semaphore lock_read i tr))
      p tt small,
)
search_from-Holds table name pb_pos lock_write ignore_pos (suc left) i tr p l small = ground (
  arith,
  search_from-Holds table name pb_pos lock_write ignore_pos left (suc i)
      (if i == pb_pos || i == ignore_pos
        then tr
        else semaphore unlock i (semaphore lock_write i tr))
      p tt small,
)
search_from-Holds table name pb_pos unlock ignore_pos (suc left) i tr p l small = absurd l

free_from-Holds :
    (table : ℕ → OsadaFile) (pb_pos left i : ℕ) (tr : LockTrace) (p : ℕ)
    → p < i + left
    → let (r, tr') = free_from table pb_pos left i tr in Holds p tr tr' (one_if (p == r))
unfolding free_from semaphore taken given
free_from-Holds table pb_pos zero i tr p small = ground arith
free_from-Holds table pb_pos (suc left) i tr p small = ground (
  arith,
  free_from-Holds table pb_pos left (suc i)
      (if i == pb_pos then tr else semaphore unlock i (semaphore lock_write i tr)) p,
)

module _ {Bits : Type 0} where
  -- search_node, where it locks to read or to write, leaves the lock of the position that it returns
  -- held once more than before, and every other lock of a position below 2^31 as it was; where it
  -- returns -OSADA_ENOENT, every lock.
  pub search_node-Holds :
      (name : List ℕ) (pb_pos : ℕ) (lock_type : LockAction) (ignore_pos : ℕ) (v : Volume Bits)
      (p : ℕ)
      → IsLock lock_type
      → p < 2 ^ 31
      → let (r, w) = search_node name pb_pos lock_type ignore_pos v in
        Holds p v.locks w.locks (one_if (p == r))
  unfolding search_node
  search_node-Holds name pb_pos lock_type ignore_pos v p l small =
      search_from-Holds v.file_table name pb_pos lock_type ignore_pos file_blocks_mount 0 v.locks p
        l small

  -- search_dir, where it locks to read or to write, leaves the lock of the position that it returns held
  -- once more than before, and every other lock of a position below 2^31 as it was, that of a node which
  -- is no directory included; where it returns -OSADA_ENOTDIR, every lock.
  pub search_dir-Holds :
      (name : List ℕ) (pb_pos : ℕ) (lock_type : LockAction) (ignore_pos : ℕ) (v : Volume Bits)
      (p : ℕ)
      → IsLock lock_type
      → p < 2 ^ 31
      → let (r, w) = search_dir name pb_pos lock_type ignore_pos v in
        Holds p v.locks w.locks (one_if (p == r))
  unfolding search_dir semaphore taken given
  search_dir-Holds name pb_pos lock_type ignore_pos v p l small =
      ground (arith, search_node-Holds name pb_pos lock_type ignore_pos v p l small)

  -- create_dir and create_node, which are create at a state and a first block, give back every lock of a
  -- position of the file table as often as they take it.
  pub create-Holds :
      (state : FileState) (first_block : ℕ) (env : Env) (name : List ℕ) (pb_pos : ℕ)
      (v : Volume Bits) (p : ℕ)
      → p < file_blocks_mount
      → Holds p v.locks (create state first_block env name pb_pos v).1.locks 0
  unfolding create get_free_file_block semaphore taken given
  create-Holds state first_block env name pb_pos v p small =
      ground (arith, free_from-Holds v.file_table pb_pos file_blocks_mount 0 v.locks p small)
